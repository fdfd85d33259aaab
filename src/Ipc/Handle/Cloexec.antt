-- ===== src/Ipc/Handle/Cloexec.antt =====
-- `close_on_exec`: the loop over the flagged handles against a description of what survives.
use openv.Common.{
  ℕ, ◌^◌, ◌<◌, ◌≡◌, refl, ◌∙◌, false, Option, none, some, List, [], ◌∷◌, arith, if◌then◌else◌,
}
use openv.Ipc.Object.{HandleEntry}
use openv.Ipc.Handle.{
  Slots, HandleTable, encode_handle, member, close_one, close_each, close_on_exec, is_cloexec,
}
use openv.Ipc.Handle.Codec.{encode-decode, id-encode, generation-encode}

-- The entry of an id is kept unless the handle that leads to it is in the list.
abbrev pub survivor : List ℕ → ℕ → Option HandleEntry → Option HandleEntry
survivor hs id none = none
survivor hs id (some e) = if member (encode_handle id e.generation) hs then none else some e

-- The handles of the list fit 32 bits, and the generations of the table 16.
abbrev pub AllWords : List ℕ → Type 0
AllWords [] = Unit {0}
AllWords (h ∷ hs) = (h < 2 ^ 32) × AllWords hs

abbrev pub HasGenerations : Slots → Type 0
HasGenerations m = (id : ℕ) (e : HandleEntry) → m id ≡ some e → e.generation < 65536

survivor_step :
    (h : ℕ) (hs : List ℕ) (id : ℕ) (m : Slots) (o : Option HandleEntry)
    → h < 2 ^ 32
    → id < 65536
    → HasGenerations m
    → m id ≡ o
    → survivor hs id (close_one h m id) ≡ survivor (h ∷ hs) id o
unfolding close_one member
survivor_step h hs id m none small p gens eq = ground arith
survivor_step h hs id m (some e) small p gens eq = ground (
  arith,
  gens id e,
  encode-decode h,
  id-encode id e.generation,
  generation-encode id e.generation,
)

close_one-HasGenerations : (h : ℕ) (m : Slots) → HasGenerations m → HasGenerations (close_one h m)
unfolding close_one
close_one-HasGenerations h m gens id e eq = ground (arith, gens id e)

survivor_nil : (id : ℕ) (o : Option HandleEntry) → o ≡ survivor [] id o
unfolding member
survivor_nil id none = refl
survivor_nil id (some e) = refl

close_each-survivor :
    (hs : List ℕ) (m : Slots) (id : ℕ)
    → AllWords hs
    → HasGenerations m
    → id < 65536
    → close_each hs m id ≡ survivor hs id (m id)
unfolding close_each
close_each-survivor [] m id small gens p = survivor_nil id (m id)
close_each-survivor (h ∷ hs) m id small gens p =
    close_each-survivor hs (close_one h m) id small.1 (close_one-HasGenerations h m gens) p
    ∙ survivor_step h hs id m (m id) small.0 p gens refl

-- When every flagged handle fits 32 bits and every generation 16, `close_on_exec` removes exactly
-- the entries whose current handle is flagged, keeps the others as they are, and drops the flags.
pub close_on_exec_lem :
    (t : HandleTable)
    → AllWords t.cloexec
    → HasGenerations t.map
    → ((id : ℕ) → id < 65536 → (close_on_exec t).map id ≡ survivor t.cloexec id (t.map id))
      × ((h : ℕ) → is_cloexec (close_on_exec t) h ≡ false)
unfolding close_on_exec is_cloexec member
close_on_exec_lem t words gens =
    (λ id p. close_each-survivor t.cloexec t.map id words gens p, λ h. refl)
