-- ===== src/Ipc/Handle/Entries.antt =====
-- Looking a handle up, removing it, and what happens to its number afterwards.
use openv.Common.{
  ℕ, ◌^◌, ◌<◌, ◌≡◌, refl, sym, ◌∙◌, ◌≢◌, false, none, some, List, [], ◌∷◌, arith, ==_ne, eq-cases,
  inl, inr, Option-cases, ==_refl, ◌==◌, ap, ap₂, subst, if◌then◌else◌,
}
use openv.Ipc.Object.{KernelObject, HandleEntry, all_rights}
use openv.Ipc.Handle.{
  insert_entry, Slots, HandleTable, encode_handle, handle_id, handle_generation, update, member,
  discard, live, get_entry, remove_entry, is_cloexec, insert,
}
use openv.Ipc.Handle.Codec.{encode-decode}
use openv.Ipc.Handle.Free.{insert_with_rights_lem, insert_eq, update_ne}

pub member-discard :
    (h k : ℕ) (xs : List ℕ) → member k (discard h xs) ≡ (if h == k then false else member k xs)
unfolding member discard
member-discard h k [] = ground arith
member-discard h k (x ∷ xs) = ground (arith, member-discard h k xs)

-- The new table of `remove` and of `remove_entry` on a live handle.
abbrev pub cleared : HandleTable → ℕ → HandleTable
cleared t handle = record {
  map = update t.map (handle_id handle) none;
  cloexec = discard handle t.cloexec;
}

get_entry-none :
    (t : HandleTable) (handle : ℕ) → t.map (handle_id handle) ≡ none → get_entry t handle ≡ none
unfolding get_entry
get_entry-none t handle e = rw (e, live)

pub remove_entry_live :
    (t : HandleTable) (handle : ℕ) (e : HandleEntry)
    → get_entry t handle ≡ some e
    → remove_entry t handle ≡ (some e, cleared t handle)
unfolding get_entry remove_entry
remove_entry_live t handle e h = rw (h, remove_entry)

remove_entry_dead :
    (t : HandleTable) (handle : ℕ)
    → get_entry t handle ≡ none
    → remove_entry t handle ≡ (none, record t { cloexec = discard handle t.cloexec })
unfolding get_entry remove_entry
remove_entry_dead t handle h = rw (h, remove_entry)

update_self : (m : Slots) (id : ℕ) → update m id none id ≡ none
update_self m id = ground arith

discarded : (t : HandleTable) (handle : ℕ) → member handle (discard handle t.cloexec) ≡ false
discarded t handle = rw (member-discard handle handle t.cloexec, ==_refl handle)

-- `get_entry` reads one slot.
get_entry_cong :
    (t t' : HandleTable) (k : ℕ)
    → t'.map (handle_id k) ≡ t.map (handle_id k)
    → get_entry t' k ≡ get_entry t k
unfolding get_entry
get_entry_cong t t' k e = rw e

-- `remove_entry` returns what `get_entry` found; afterwards the handle leads to no entry and is
-- not close-on-exec, and the handles on other ids lead to what they led to before.
pub remove_entry_lem :
    (t : HandleTable) (handle : ℕ)
    → let (found, t') = remove_entry t handle in
      (found ≡ get_entry t handle)
      × (get_entry t' handle ≡ none)
      × (is_cloexec t' handle ≡ false)
      × ((k : ℕ) → handle_id k ≢ handle_id handle → get_entry t' k ≡ get_entry t k)
unfolding is_cloexec
remove_entry_lem t handle = elim (Option-cases (get_entry t handle)) [
  | inl dead ↦ rw (remove_entry_dead t handle dead) (
    sym dead,
    get_entry_cong t _ handle refl ∙ dead,
    discarded t handle,
    λ k ne. get_entry_cong t _ k refl,
  )
  | inr (e, alive) ↦ rw (remove_entry_live t handle e alive) (
    sym alive,
    get_entry-none (cleared t handle) handle (update_self t.map (handle_id handle)),
    discarded t handle,
    λ k ne. get_entry_cong t (cleared t handle) k (update_ne t.map (handle_id handle) _ none ne),
  )
]

-- A handle of generation 1 that was closed is given out again by the next insertion when every
-- lower id is taken: the stale number then leads to the new object.
pub insert-remove_reuses :
    (t : HandleTable) (handle : ℕ) (e : HandleEntry) (obj : KernelObject)
    → handle < 2 ^ 32
    → handle_generation handle ≡ 1
    → get_entry t handle ≡ some e
    → ((j : ℕ) → j < handle_id handle → t.map j ≢ none)
    → (t' : HandleTable) × (insert (remove_entry t handle).1 obj ≡ some (handle, t'))
      × (get_entry t' handle ≡ some (record { object = obj; rights = all_rights; generation = 1 }))
insert-remove_reuses t handle e obj small gen alive taken =
    let j = handle_id handle in
    let t₁ = cleared t handle in
    let (h, t', e₁, ins) =
      insert_with_rights_lem t₁ obj all_rights j (omega arith) (update_self t.map j) in
    let not_above : ¬ (j < handle_id h) = λ lt. ins.2 j lt (update_self t.map j) in
    let not_below : ¬ (handle_id h < j) = λ lt.
      taken (handle_id h) lt (sym (update_ne t.map j (handle_id h) none (omega arith)) ∙ ins.1) in
    let eq_id : handle_id h ≡ j = omega arith in
    let same : h ≡ handle =
      ins.5 ∙ ap₂ encode_handle eq_id (sym gen) ∙ encode-decode handle small in
    (
      t',
      rw (remove_entry_live t handle e alive, insert_eq) (e₁ ∙ ap (λ k. some (k, t')) same),
      subst
          (λ k.
            get_entry t' k ≡ some (record { object = obj; rights = all_rights; generation = 1 }))
          same ins.0,
    )

-- The table that `dup2` leaves when the source is live.
abbrev pub redirected : HandleTable → HandleEntry → ℕ → HandleTable
redirected t e dst = record {
  map = update t.map (handle_id dst) (some (record e { generation = handle_generation dst }));
  cloexec = discard dst t.cloexec;
}

pub get_entry-redirected :
    (t : HandleTable) (e : HandleEntry) (dst : ℕ)
    → get_entry (redirected t e dst) dst ≡ some (record e { generation = handle_generation dst })
unfolding get_entry live
get_entry-redirected t e dst =
    ground (arith, ==_refl (handle_id dst), ==_refl (handle_generation dst))

pub redirected-frame :
    (t : HandleTable) (e : HandleEntry) (dst : ℕ)
    → (is_cloexec (redirected t e dst) dst ≡ false)
      × ((k : ℕ) → handle_id k ≢ handle_id dst → get_entry (redirected t e dst) k ≡ get_entry t k)
unfolding is_cloexec
redirected-frame t e dst = (
  discarded t dst,
  λ k ne. get_entry_cong t (redirected t e dst) k (update_ne t.map (handle_id dst) _ _ ne),
)

-- An entry that is stored under a number of another generation is not found by that number.
pub insert_entry_stale :
    (t : HandleTable) (handle : ℕ) (e : HandleEntry)
    → e.generation ≢ handle_generation handle
    → get_entry (insert_entry t handle e) handle ≡ none
unfolding get_entry live insert_entry
insert_entry_stale t handle e ne =
    ground (arith, ==_refl (handle_id handle), ==_ne e.generation (handle_generation handle) ne)

-- A number that leads to no entry still leads to none when another handle is removed.
pub get_entry-remove_dead :
    (t : HandleTable) (h k : ℕ) → get_entry t k ≡ none → get_entry (remove_entry t h).1 k ≡ none
unfolding get_entry live remove_entry
get_entry-remove_dead t h k dead = ground arith

same_handle :
    (t : HandleTable) (h k : ℕ) (e e' : HandleEntry)
    → h < 2 ^ 32
    → k < 2 ^ 32
    → handle_id k ≡ handle_id h
    → get_entry t h ≡ some e
    → get_entry t k ≡ some e'
    → h ≡ k
unfolding get_entry live
same_handle t h k e e' p q same a b = ground arith

-- Removing a handle leaves every other live handle of 32 bits as it was.
pub get_entry-remove_other :
    (t : HandleTable) (h k : ℕ) (e e' : HandleEntry)
    → h < 2 ^ 32
    → k < 2 ^ 32
    → h ≢ k
    → get_entry t h ≡ some e
    → get_entry t k ≡ some e'
    → get_entry (remove_entry t h).1 k ≡ some e'
get_entry-remove_other t h k e e' p q ne a b = elim (eq-cases (handle_id k) (handle_id h)) [
  | inl same ↦ absurd (ne (same_handle t h k e e' p q same a b))
  | inr other ↦ (remove_entry_lem t h).3 k other ∙ b
]
