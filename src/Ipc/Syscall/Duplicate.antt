-- ===== src/Ipc/Syscall/Duplicate.antt =====
-- Which entries `sys_handle_duplicate`, `sys_dup` and `sys_dup2` leave in the caller's table.
use openv.Common.{
  ℕ, ◌%◌, ◌^◌, ◌≤◌, ◌<◌, ◌≡◌, ◌≢◌, ◌⊎◌, inl, inr, true, false, none, some, arith, Option-cases, ap,
  ==_ne,
}
use openv.Common.Bits.{bit_of, bit_of-masked}
use openv.Ipc.Object.{HandleEntry, contains, from_bits_truncate, duplicate_right, all_rights}
use openv.Ipc.Handle.{
  HandleTable, handle_id, handle_generation, get_entry, is_cloexec, insert_with_rights, dup, dup2,
}
use openv.Ipc.Handle.Free.{insert_with_rights_lem, insert_with_rights-frame, insert_eq}
use openv.Ipc.Handle.Entries.{redirected, get_entry-redirected, redirected-frame}
use openv.Ipc.Syscall.{
  sys_handle_duplicate, sys_dup, sys_dup2, duplicate_entry, duplicate_body, refuse_duplicate,
}

-- An entry that `sys_handle_duplicate` may leave under an id: the old one, or a copy of the
-- duplicated entry with no bit of the rights set that is clear in it.
abbrev pub NarrowsAt : HandleTable → ℕ → HandleTable → ℕ → Type 0
NarrowsAt t handle t' j =
    (t'.map j ≡ t.map j)
    ⊎ ((e : HandleEntry) × (e' : HandleEntry) × (get_entry t handle ≡ some e)
        × (t'.map j ≡ some e')
        × (e'.object ≡ e.object)
        × ((k : ℕ) → bit_of k e'.rights ≤ bit_of k e.rights))

contains-bits : (old new : ℕ) → contains old new ≡ true → (k : ℕ) → bit_of k new ≤ bit_of k old
unfolding contains
contains-bits old new h k = bit_of-masked k old new (ground arith)

duplicate_entry_cases :
    (t : HandleTable) (e : HandleEntry) (rights ret : ℕ) (t' : HandleTable)
    → duplicate_entry t e rights ≡ some (ret, t')
    → let req = from_bits_truncate (rights % 2 ^ 32) in
      (t' ≡ t)
      ⊎ ((contains e.rights req ≡ true) × (insert_with_rights t e.object req ≡ some (ret, t')))
unfolding duplicate_entry
duplicate_entry_cases t e rights ret t' r = ground arith

duplicate_entry-Narrows :
    (t : HandleTable) (e : HandleEntry) (handle rights ret : ℕ) (t' : HandleTable) (j : ℕ)
    → get_entry t handle ≡ some e
    → duplicate_entry t e rights ≡ some (ret, t')
    → NarrowsAt t handle t' j
duplicate_entry-Narrows t e handle rights ret t' j found r =
    elim (duplicate_entry_cases t e rights ret t' r) [
      | inl same ↦ inl (ap (λ (u : HandleTable). u.map j) same)
      | inr (allowed, done) ↦ elim (insert_with_rights-frame t e.object _ ret t' j done) [
        | inl same ↦ inl same
        | inr (e', at, obj, rights') ↦
            inr (e, e', found, at, obj, λ k. rw rights' (contains-bits e.rights _ allowed k))
      ]
    ]

duplicate_body-Narrows :
    (t : HandleTable) (handle rights ret : ℕ) (t' : HandleTable) (j : ℕ)
    → duplicate_body t handle rights ≡ some (ret, t')
    → NarrowsAt t handle t' j
unfolding duplicate_body
duplicate_body-Narrows t handle rights ret t' j r = elim (Option-cases (get_entry t handle)) [
  | inl e ↦ inl (ground (arith, e))
  | inr (entry, e) ↦
      duplicate_entry-Narrows t entry handle rights ret t' j e (rw (e, duplicate_body) at r)
]

-- Whatever `sys_handle_duplicate` answers, every id of the table keeps its entry or holds a copy of
-- the duplicated entry's object, and no bit of the copy's rights is set that is clear in those of
-- the duplicated entry.
pub sys_handle_duplicate-Narrows :
    (t t' : HandleTable) (handle rights ret j : ℕ)
    → sys_handle_duplicate (some t) handle rights ≡ some (ret, some t')
    → NarrowsAt t (handle % 2 ^ 32) t' j
unfolding sys_handle_duplicate
sys_handle_duplicate-Narrows t t' handle rights ret j r =
    duplicate_body-Narrows t (handle % 2 ^ 32) rights ret t' j (ground arith)

-- `sys_dup` on a handle that may be duplicated, in a table with a free id, returns a handle to the
-- same object with all rights, whatever rights the duplicated entry has.
pub sys_dup-all_rights :
    (t : HandleTable) (old_fd j : ℕ) (e : HandleEntry)
    → old_fd < 2 ^ 32
    → get_entry t old_fd ≡ some e
    → contains e.rights duplicate_right ≡ true
    → j < 65536
    → t.map j ≡ none
    → (new_fd : ℕ) × (t' : HandleTable) × (sys_dup (some t) old_fd ≡ some (new_fd, some t'))
      × (get_entry t' new_fd
          ≡ some (record { object = e.object; rights = all_rights; generation = 1 }))
unfolding sys_dup refuse_duplicate dup
sys_dup-all_rights t old_fd j e small found allowed p free =
    let (h, t', done, ins) = insert_with_rights_lem t e.object all_rights j p free in
    let same : old_fd % 2 ^ 32 ≡ old_fd = omega arith in
    (h, t', rw same (ground (arith, insert_eq t e.object)), ins.0)

-- `sys_dup2` on a handle that may be duplicated makes the other number lead to the same object
-- with the same rights, clears its close-on-exec flag and changes no other id.
pub sys_dup2_lem :
    (t : HandleTable) (old_fd new_fd : ℕ) (e : HandleEntry)
    → old_fd < 2 ^ 32
    → new_fd < 2 ^ 32
    → old_fd ≢ new_fd
    → get_entry t old_fd ≡ some e
    → contains e.rights duplicate_right ≡ true
    → (t' : HandleTable) × (sys_dup2 (some t) old_fd new_fd ≡ some (new_fd, some t'))
      × (get_entry t' new_fd ≡ some (record e { generation = handle_generation new_fd }))
      × (is_cloexec t' new_fd ≡ false)
      × ((k : ℕ) → handle_id k ≢ handle_id new_fd → get_entry t' k ≡ get_entry t k)
unfolding sys_dup2 refuse_duplicate dup2
sys_dup2_lem t old_fd new_fd e p q ne found allowed =
    let same : old_fd % 2 ^ 32 ≡ old_fd = omega arith in
    let same' : new_fd % 2 ^ 32 ≡ new_fd = omega arith in
    (
      redirected t e new_fd,
      rw (same, same') (ground (arith, ==_ne old_fd new_fd ne)),
      get_entry-redirected t e new_fd,
      (redirected-frame t e new_fd).0,
      (redirected-frame t e new_fd).1,
    )
