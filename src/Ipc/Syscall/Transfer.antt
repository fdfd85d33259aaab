-- ===== src/Ipc/Syscall/Transfer.antt =====
-- Handles that are sent over a channel and received from one.
use openv.Common.{
  ℕ, ◌+◌, ◌%◌, ◌^◌, ◌<◌, ◌≡◌, subst, ◌≢◌, inl, inr, none, some, List, [], ◌∷◌, arith, ◌⊎◌,
  Option-cases,
}
use openv.Ipc.Object.{HandleEntry}
use openv.Errno
use openv.Ipc.Port.{World, Endpoint, Message}
use openv.Ipc.Channel.Closed.{Drops}
use openv.Ipc.Channel.{References, peer_of}
use openv.Ipc.Channel.Fifo.{Delivered}
use openv.Ipc.Handle.{
  HandleTable, encode_handle, handle_generation, get_entry, insert_entry, lowest_free,
}
use openv.Ipc.Handle.Codec.{generation-encode}
use openv.Ipc.Handle.Free.{lowest_free-lt}
use openv.Ipc.Handle.Entries.{insert_entry_stale}
use openv.Ipc.Syscall.{mint_handle, take_entries, Effect}

mint_none :
    (t : HandleTable) (entry : HandleEntry) (r : ℕ × HandleTable)
    → lowest_free t ≡ none
    → mint_handle t entry ≢ some r
unfolding mint_handle
mint_none t entry r e h = ground (arith, e)

mint_some :
    (t : HandleTable) (entry : HandleEntry) (id : ℕ)
    → lowest_free t ≡ some id
    → mint_handle t entry
      ≡ some (
        encode_handle id ((entry.generation + 1) % 65536),
        insert_entry t (encode_handle id ((entry.generation + 1) % 65536)) entry,
      )
unfolding mint_handle
mint_some t entry id e = rw (e, mint_handle)

-- The number that a receiver is given for a handle that came with a message leads to no entry of
-- its table: the number carries the next generation, and the entry keeps the old one.
pub mint_handle-dead :
    (t t' : HandleTable) (entry : HandleEntry) (h : ℕ)
    → entry.generation < 65536
    → mint_handle t entry ≡ some (h, t')
    → get_entry t' h ≡ none
mint_handle-dead t t' entry h p e = elim (Option-cases (lowest_free t)) [
  | inl full ↦ absurd (mint_none t entry (h, t') full e)
  | inr (id, found) ↦
      let h' : ℕ = encode_handle id ((entry.generation + 1) % 65536) in
      let gen : handle_generation h' ≡ (entry.generation + 1) % 65536 =
        generation-encode id _ (lowest_free-lt t id found) (omega arith) in
      let same : (h' ≡ h) × (insert_entry t h' entry ≡ t') =
        ground (arith, mint_some t entry id found) in
      subst (λ u. get_entry u h ≡ none) same.1
        (subst (λ k. get_entry (insert_entry t h' entry) k ≡ none) same.0
          (insert_entry_stale t h' entry (omega arith)))
]

-- The handles of a list, and the entries that they lead to.
abbrev pub Lives : HandleTable → List ℕ → List HandleEntry → Type 0
Lives t [] [] = Unit {0}
Lives t [] (e ∷ es) = ⊥
Lives t (h ∷ hs) [] = ⊥
Lives t (h ∷ hs) (e ∷ es) = (get_entry t h ≡ some e) × Lives t hs es

abbrev pub Dead : HandleTable → List ℕ → Type 0
Dead t [] = Unit {0}
Dead t (h ∷ hs) = (get_entry t h ≡ none) × Dead t hs

abbrev Differs : ℕ → List ℕ → Type 0
Differs h [] = Unit {0}
Differs h (k ∷ ks) = (h ≢ k) × Differs h ks

abbrev Distinct : List ℕ → Type 0
Distinct [] = Unit {0}
Distinct (h ∷ hs) = Differs h hs × Distinct hs

-- Every number of the list is one of 32 bits.
abbrev pub AreWords : List ℕ → Type 0
AreWords [] = Unit {0}
AreWords (h ∷ hs) = (h < 2 ^ 32) × AreWords hs

module _ (refs : References) (t : HandleTable) (w : World) (n : ℕ) (bytes ids : List ℕ) where
  abbrev sent_message : Message
  sent_message = record { bytes = bytes; handles = (take_entries t ids).0 }

-- What a write past its checks does, to the caller's table and to the shared state.
abbrev pub Moves : References → HandleTable → World → ℕ → List ℕ → List ℕ → Effect → Type 0
Moves refs t w n bytes ids r =
    (es : List HandleEntry) × (t' : HandleTable) × Lives t ids es
    × (r.fds ≡ some t')
    × Dead t' ids
    × (((peer_of n w ≡ none)
          × (r.ret ≡ Errno.failed)
          × Drops refs (record { bytes = bytes; handles = es }) w r.world)
        ⊎ ((p : ℕ) × (peer : Endpoint) × (peer_of n w ≡ some (p, peer))
            × (r.ret ≡ 0)
            × Delivered p peer (record { bytes = bytes; handles = es }) w r.world))
