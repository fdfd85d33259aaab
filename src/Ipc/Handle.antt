-- ===== src/Ipc/Handle.antt =====
-- src/ipc/handle.rs: handle numbers and the per-process `HandleTable`.
-- The B-tree map is a function from ids, its set of close-on-exec handles a list. `none` as the
-- result of an insertion is the panic of a full table.
pub mod Codec
pub mod Free
pub mod Entries
pub mod Cloexec
use mathlib.Core.Option
use openv.Common.{
  ℕ, zero, suc, ◌+◌, ◌*◌, ◌/◌, ◌%◌, Bool, true, false, not, Option, none, some, List, [], ◌∷◌, ◌==◌,
  if◌then◌else◌,
}
use openv.Ipc.Object.{KernelObject, HandleEntry, all_rights, contains}
use openv.Errno

-- `encode_handle` on an id and a generation of 16 bits: the two fields do not overlap.
unfoldable pub encode_handle : ℕ → ℕ → ℕ
encode_handle id generation = generation * 65536 + id

-- `decode_handle`: `(handle & 0xFFFF) as u16` and `(handle >> 16) as u16`.
abbrev pub handle_id : ℕ → ℕ
handle_id handle = handle % 65536

abbrev pub handle_generation : ℕ → ℕ
handle_generation handle = handle / 65536 % 65536

abbrev pub Slots : Type 0
Slots = ℕ → Option HandleEntry

pub record HandleTable : Type 0 where
  pub map : Slots
  pub cloexec : List ℕ

-- `BTreeMap::insert` (with `some`) and `BTreeMap::remove` (with `none`).
abbrev pub update : Slots → ℕ → Option HandleEntry → Slots
update m id v j = if j == id then v else m j

-- `BTreeSet::contains`, `BTreeSet::insert` and `BTreeSet::remove`.
unfoldable pub member : ℕ → List ℕ → Bool
member h [] = false
member h (x ∷ xs) = if x == h then true else member h xs

unfoldable pub add : ℕ → List ℕ → List ℕ
unfolding member
add h xs = if member h xs then xs else h ∷ xs

unfoldable pub discard : ℕ → List ℕ → List ℕ
discard h [] = []
discard h (x ∷ xs) = if x == h then discard h xs else x ∷ discard h xs

unfoldable pub new : HandleTable
new = record { map = λ id. none; cloexec = [] }

-- The search of `lowest_free` through the `n` ids from `id` on.
unfoldable pub find_free : ℕ → ℕ → Slots → Option ℕ
find_free zero id m = none
find_free (suc n) id m = elim (m id) [ none ↦ some id | some e ↦ find_free n (id + 1) m ]

unfoldable pub lowest_free : HandleTable → Option ℕ
lowest_free t = find_free 65536 0 t.map

next_generation : Option HandleEntry → ℕ
next_generation none = 1
next_generation (some e) = (e.generation + 1) % 65536

unfoldable pub insert_with_rights : HandleTable → KernelObject → ℕ → Option (ℕ × HandleTable)
unfolding next_generation
insert_with_rights t obj rights = elim (lowest_free t) [
  | none ↦ none
  | some id ↦
      let generation : ℕ = next_generation (t.map id) in
      let entry : HandleEntry = record { object = obj; rights = rights; generation = generation } in
      some (encode_handle id generation, record t { map = update t.map id (some entry) })
]

unfoldable pub insert : HandleTable → KernelObject → Option (ℕ × HandleTable)
unfolding next_generation
insert t obj = elim (lowest_free t) [
  | none ↦ none
  | some id ↦
      let generation : ℕ = next_generation (t.map id) in
      let entry : HandleEntry = record {
        object = obj;
        rights = all_rights;
        generation = generation;
      } in
      some (encode_handle id generation, record t { map = update t.map id (some entry) })
]

unfoldable pub insert_at : HandleTable → ℕ → KernelObject → HandleTable
insert_at t handle obj = record t {
  map =
      update t.map (handle_id handle) (
        some (record { object = obj; rights = all_rights; generation = handle_generation handle }));
}

unfoldable pub insert_entry : HandleTable → ℕ → HandleEntry → HandleTable
insert_entry t handle entry = record t { map = update t.map (handle_id handle) (some entry) }

-- `.filter(|e| e.generation == generation)`.
unfoldable pub live : ℕ → Option HandleEntry → Option HandleEntry
live generation none = none
live generation (some e) = if e.generation == generation then some e else none

unfoldable pub get_entry : HandleTable → ℕ → Option HandleEntry
unfolding live
get_entry t handle = live (handle_generation handle) (t.map (handle_id handle))

unfoldable pub get : HandleTable → ℕ → Option KernelObject
unfolding live
get t handle =
    Option.map (λ e. e.object) (live (handle_generation handle) (t.map (handle_id handle)))

pub data Access : Type 0 where
  granted : KernelObject → Access
  refused : ℕ → Access

unfoldable pub get_with_rights : HandleTable → ℕ → ℕ → Access
unfolding live
get_with_rights t handle required =
    elim (live (handle_generation handle) (t.map (handle_id handle))) [
      | none ↦ refused Errno.ebadf
      | some entry ↦
          if not (contains entry.rights required)
          then refused Errno.eacces
          else granted entry.object
    ]

unfoldable pub remove_entry : HandleTable → ℕ → Option HandleEntry × HandleTable
unfolding live
remove_entry t handle =
    let cloexec' : List ℕ = discard handle t.cloexec in
    elim (live (handle_generation handle) (t.map (handle_id handle))) [
      | none ↦ (none, record t { cloexec = cloexec' })
      | some e ↦ (some e, record { map = update t.map (handle_id handle) none; cloexec = cloexec' })
    ]

unfoldable pub remove : HandleTable → ℕ → Option KernelObject × HandleTable
unfolding live
remove t handle =
    let cloexec' : List ℕ = discard handle t.cloexec in
    elim (live (handle_generation handle) (t.map (handle_id handle))) [
      | none ↦ (none, record t { cloexec = cloexec' })
      | some e ↦
          (some e.object, record { map = update t.map (handle_id handle) none; cloexec = cloexec' })
    ]

unfoldable pub close_all : HandleTable → HandleTable
close_all t = record { map = λ id. none; cloexec = [] }

unfoldable pub set_cloexec : HandleTable → ℕ → Bool → HandleTable
set_cloexec t handle true = record t { cloexec = add handle t.cloexec }
set_cloexec t handle false = record t { cloexec = discard handle t.cloexec }

unfoldable pub is_cloexec : HandleTable → ℕ → Bool
is_cloexec t handle = member handle t.cloexec

-- The loop of `close_on_exec` over the handles to close.
unfoldable pub close_one : ℕ → Slots → Slots
unfolding live
close_one h m = elim (live (handle_generation h) (m (handle_id h))) [
  | none ↦ m
  | some e ↦ update m (handle_id h) none
]

unfoldable pub close_each : List ℕ → Slots → Slots
close_each [] m = m
close_each (h ∷ hs) m = close_each hs (close_one h m)

unfoldable pub close_on_exec : HandleTable → HandleTable
close_on_exec t = record { map = close_each t.cloexec t.map; cloexec = [] }

-- The inner option is the function's own result.
unfoldable pub dup : HandleTable → ℕ → Option (Option ℕ × HandleTable)
dup t src = elim (get_entry t src) [
  | none ↦ some (none, t)
  | some entry ↦ Option.map (λ r. (some (r.0), r.1)) (insert t entry.object)
]

unfoldable pub dup2 : HandleTable → ℕ → ℕ → Bool × HandleTable
dup2 t src dst = elim (get_entry t src) [
  | none ↦ (false, t)
  | some entry ↦ (
    true,
    record {
      map =
          update t.map (handle_id dst) (some (record entry { generation = handle_generation dst }));
      cloexec = discard dst t.cloexec;
    },
  )
]
