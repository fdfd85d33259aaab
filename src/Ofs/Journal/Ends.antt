-- ===== src/Ofs/Journal/Ends.antt =====
-- How a run of writes ends, when any of them may fail.
use openv.Common.{ℕ, ◌≡◌, refl, subst, Bool, true, false, List, [], ◌∷◌}
use openv.Ofs.Device.{Block, Disk, Device, put_block, finish_write, write_block}
use openv.Ofs.Journal.{proceed}

-- How a run of writes ends: with `Q` of the disk if all succeed, with `R` if one fails.
pub data Ends (readable : ℕ → Bool) (Q R : Disk → Type 0) : Bool × Device → Type 0 where
  done : (d : Device) → d.readable ≡ readable → Q d.blocks → Ends readable Q R (true, d)
  failed : (d : Device) → d.readable ≡ readable → R d.blocks → Ends readable Q R (false, d)

module _ {readable : ℕ → Bool} {Q R S : Disk → Type 0} where
  pub Ends-proceed :
      {r : Bool × Device} {k : Device → Bool × Device}
      → Ends readable Q R r
      → ((d : Device) → d.readable ≡ readable → Q d.blocks → Ends readable S R (k d))
      → Ends readable S R (proceed r k)
  Ends-proceed (done d e q) next = next d e q
  Ends-proceed (failed d e r) next = failed d e r

  pub Ends-map :
      {r : Bool × Device} → ((d : Disk) → Q d → S d) → Ends readable Q R r → Ends readable S R r
  Ends-map f (done d e q) = done d e (f d.blocks q)
  Ends-map f (failed d e r) = failed d e r

module _ (Q R : Disk → Type 0) (blk : ℕ) (b : Block) (d : Device) where
  pub finish_write-Ends :
      (os : List Bool)
      → Q (put_block d.blocks blk b)
      → R d.blocks
      → Ends d.readable Q R (finish_write os blk b d)
  finish_write-Ends [] q r = failed d refl r
  finish_write-Ends (false ∷ os) q r = failed (record d { outcomes = os }) refl r
  finish_write-Ends (true ∷ os) q r =
      done (record d { outcomes = os; blocks = put_block d.blocks blk b }) refl q

  pub write_block-Ends :
      {readable : ℕ → Bool}
      → d.readable ≡ readable
      → Q (put_block d.blocks blk b)
      → R d.blocks
      → Ends readable Q R (write_block blk b d)
  unfolding write_block
  write_block-Ends e q r =
      subst (λ ρ. Ends ρ Q R (finish_write d.outcomes blk b d)) e (finish_write-Ends d.outcomes q r)

-- Whatever the outcome of the last write, the transaction is not lost.
pub Ends_ignored :
    {readable : ℕ → Bool} {Q R S T : Disk → Type 0} {r : Bool × Device}
    → Ends readable Q R r
    → ((d : Disk) → Q d → S d)
    → ((d : Disk) → R d → S d)
    → Ends readable S T (true, r.1)
Ends_ignored (done d e q) f g = done d e (f d.blocks q)
Ends_ignored (failed d e r) f g = done d e (g d.blocks r)

pub Ends_failing :
    {readable : ℕ → Bool} {Q R S : Disk → Type 0} {r : Bool × Device}
    → ((d : Disk) → R d → S d)
    → Ends readable Q R r
    → Ends readable Q S r
Ends_failing f (done d e q) = done d e q
Ends_failing f (failed d e r) = failed d e (f d.blocks r)
