-- ===== src/Ipc/Handle/Free.antt =====
-- `lowest_free`, and the insertions that use it.
use openv.Common.{
  ℕ, zero, suc, ◌+◌, ◌≤◌, ◌<◌, ◌≡◌, refl, sym, ◌∙◌, ◌≢◌, inl, inr, Option, none, some, arith,
  Option-cases, ◌⊎◌, eq-cases,
}
use openv.Ipc.Object.{KernelObject, HandleEntry, all_rights}
use openv.Ipc.Handle.{
  Slots, HandleTable, encode_handle, handle_id, update, find_free, lowest_free, next_generation,
  insert, insert_with_rights, get_entry,
}
use openv.Ipc.Handle.Codec.{id-encode, generation-encode}

-- What a successful search returns: the first free id.
abbrev pub Lowest : ℕ → ℕ → Slots → ℕ → Type 0
Lowest n id m r = (id ≤ r) × (r < id + n) × (m r ≡ none) × ((j : ℕ) → id ≤ j → j < r → m j ≢ none)

taken_below :
    (m : Slots) (id : ℕ) (e : HandleEntry)
    → m id ≡ some e
    → (r : ℕ) → ((j : ℕ) → id + 1 ≤ j → j < r → m j ≢ none)
    → (j : ℕ) → id ≤ j
    → j < r
    → m j ≢ none
taken_below m id e h r rest j p q z = elim (eq-cases id j) [
  | inl same ↦ cc
  | inr other ↦ rest j (omega arith) q z
]

find_free_hit : (n id : ℕ) (m : Slots) → m id ≡ none → find_free (suc n) id m ≡ some id
unfolding find_free
find_free_hit n id m e = rw (e, find_free)

find_free_miss :
    (n id : ℕ) (m : Slots) (x : HandleEntry)
    → m id ≡ some x
    → find_free (suc n) id m ≡ find_free n (id + 1) m
unfolding find_free
find_free_miss n id m x e = rw (e, find_free)

pub find_free-Lowest : (n id : ℕ) (m : Slots) (r : ℕ) → find_free n id m ≡ some r → Lowest n id m r
unfolding find_free
find_free-Lowest zero id m r h = cc
find_free-Lowest (suc n) id m r h = elim (Option-cases (m id)) [
  | inl e ↦
      let here : id ≡ r = ground (arith, find_free_hit n id m e) in
      (omega arith, omega arith, cc, λ j p q. absurd (omega arith))
  | inr (x, e) ↦
      let rest = find_free-Lowest n (id + 1) m r (sym (find_free_miss n id m x e) ∙ h) in
      (omega arith, omega arith, rest.2, taken_below m id x e r rest.3)
]

pub find_free_total :
    (n id : ℕ) (m : Slots) (j : ℕ)
    → id ≤ j
    → j < id + n
    → m j ≡ none
    → (r : ℕ) × (find_free n id m ≡ some r) × (r ≤ j)
unfolding find_free
find_free_total zero id m j p q e = absurd (omega arith)
find_free_total (suc n) id m j p q e = elim (Option-cases (m id)) [
  | inl free ↦ (id, find_free_hit n id m free, p)
  | inr (x, taken) ↦
      let later : id + 1 ≤ j = ground arith in
      let (r, found, low) = find_free_total n (id + 1) m j later (omega arith) e in
      (r, find_free_miss n id m x taken ∙ found, low)
]

pub update_ne : (m : Slots) (id k : ℕ) (v : Option HandleEntry) → k ≢ id → update m id v k ≡ m k
update_ne m id k v ne = ground arith

-- What `insert_with_rights` does to a table that has a free id.
abbrev pub Inserts : HandleTable → KernelObject → ℕ → ℕ → HandleTable → Type 0
Inserts t obj rights handle t' =
    (get_entry t' handle ≡ some (record { object = obj; rights = rights; generation = 1 }))
    × (t.map (handle_id handle) ≡ none)
    × ((j : ℕ) → j < handle_id handle → t.map j ≢ none)
    × ((j : ℕ) → j ≢ handle_id handle → t'.map j ≡ t.map j)
    × (t'.cloexec ≡ t.cloexec)
    × (handle ≡ encode_handle (handle_id handle) 1)

module _ (t : HandleTable) (obj : KernelObject) (rights : ℕ) where
  insert_with_rights_result :
      (id : ℕ)
      → lowest_free t ≡ some id
      → t.map id ≡ none
      → insert_with_rights t obj rights
        ≡ some (
          encode_handle id 1,
          record t {
            map = update t.map id (some (record { object = obj; rights = rights; generation = 1 }));
          },
        )
  unfolding insert_with_rights
  insert_with_rights_result id e f = rw (e, insert_with_rights) (rw (f, next_generation))

  entry_at :
      (id : ℕ)
      → id < 65536
      → get_entry
          (record t {
            map = update t.map id (some (record { object = obj; rights = rights; generation = 1 }));
          })
          (encode_handle id 1)
        ≡ some (record { object = obj; rights = rights; generation = 1 })
  unfolding get_entry
  entry_at id p =
      rw (id-encode id 1 p (omega arith), generation-encode id 1 p (omega arith)) (ground arith)

  -- With a free id, `insert_with_rights` returns a handle of generation 1 on the lowest one,
  -- leads it to an entry with the object and the rights, and changes no other id and no flag.
  pub insert_with_rights_lem :
      (j : ℕ)
      → j < 65536
      → t.map j ≡ none
      → (handle : ℕ) × (t' : HandleTable) × (insert_with_rights t obj rights ≡ some (handle, t'))
        × Inserts t obj rights handle t'
  unfolding lowest_free
  insert_with_rights_lem j p e =
      let (id, found, low) = find_free_total 65536 0 t.map j (omega arith) p e in
      let (_, small, free, below) = find_free-Lowest 65536 0 t.map id found in
      let eq : handle_id (encode_handle id 1) ≡ id = id-encode id 1 small (omega arith) in
      (
        encode_handle id 1,
        _,
        insert_with_rights_result id found free,
        (
          entry_at id small,
          rw eq free,
          λ k h. below k (omega arith) (omega arith),
          λ k ne. update_ne t.map id k _ (λ e. ne (rw eq e)),
          refl,
          rw eq,
        ),
      )

pub insert_eq :
    (t : HandleTable) (obj : KernelObject) → insert t obj ≡ insert_with_rights t obj all_rights
unfolding insert insert_with_rights
insert_eq t obj = refl

-- Whatever `insert_with_rights` returns, an id keeps its entry or gets the new one.
pub insert_with_rights-frame :
    (t : HandleTable) (obj : KernelObject) (rights handle : ℕ) (t' : HandleTable) (j : ℕ)
    → insert_with_rights t obj rights ≡ some (handle, t')
    → (t'.map j ≡ t.map j)
      ⊎ ((e : HandleEntry) × (t'.map j ≡ some e) × (e.object ≡ obj) × (e.rights ≡ rights))
unfolding insert_with_rights
insert_with_rights-frame t obj rights handle t' j h = elim (Option-cases (lowest_free t)) [
  | inl full ↦ absurd (ground (arith, full))
  | inr (id, e) ↦ elim (eq-cases j id) [
    | inl same ↦ inr (
      record { object = obj; rights = rights; generation = next_generation (t.map id) },
      ground (arith, e),
      refl,
      refl,
    )
    | inr other ↦ inl (ground (arith, e))
  ]
]

pub lowest_free-lt : (t : HandleTable) (id : ℕ) → lowest_free t ≡ some id → id < 65536
unfolding lowest_free
lowest_free-lt t id e = (find_free-Lowest 65536 0 t.map id e).1
