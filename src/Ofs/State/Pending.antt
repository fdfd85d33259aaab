-- ===== src/Ofs/State/Pending.antt =====
-- The pending blocks: a map sorted by block number.
use openv.Common.{
  ℕ, ◌≤◌, ◌<◌, ◌≡◌, refl, none, some, List, [], ◌∷◌, length, ◌==◌, if◌then◌else◌, arith,
}
use openv.Ofs.Device.{Block, Disk, put_block}
use openv.Ofs.Journal.{Entry}
use openv.Ofs.Journal.Header.{IsTarget, AllTargets}
use openv.Ofs.Journal.Recovery.{overlay}
use openv.Ofs.State.{pending_get, pending_insert}

-- All block numbers are above `k`.
abbrev pub AllAbove : ℕ → List Entry → Type 0
AllAbove k [] = Unit {0}
AllAbove k (e ∷ es) = (k < e.0) × AllAbove k es

abbrev pub IsSorted : List Entry → Type 0
IsSorted [] = Unit {0}
IsSorted (e ∷ es) = AllAbove e.0 es × IsSorted es

AllAbove-le : (j k : ℕ) (es : List Entry) → j ≤ k → AllAbove k es → AllAbove j es
AllAbove-le j k [] h all = tt
AllAbove-le j k (e ∷ es) h all = (omega arith, AllAbove-le j k es h all.1)

pending_insert-AllAbove :
    (k blk : ℕ) (b : Block) (es : List Entry)
    → k < blk
    → AllAbove k es
    → AllAbove k (pending_insert blk b es)
unfolding pending_insert
pending_insert-AllAbove k blk b [] h all = (h, tt)
pending_insert-AllAbove k blk b (e ∷ es) h all =
    ground (arith, pending_insert-AllAbove k blk b es h all.1)

pub pending_insert-IsSorted :
    (blk : ℕ) (b : Block) (es : List Entry) → IsSorted es → IsSorted (pending_insert blk b es)
unfolding pending_insert
pending_insert-IsSorted blk b [] h = (tt, tt)
pending_insert-IsSorted blk b (e ∷ es) h = ground (
  arith,
  pending_insert-IsSorted blk b es h.1,
  pending_insert-AllAbove e.0 blk b es,
  AllAbove-le blk e.0 es,
)

pub pending_insert-AllTargets :
    (blk : ℕ) (b : Block) (es : List Entry)
    → IsTarget blk
    → AllTargets es
    → AllTargets (pending_insert blk b es)
unfolding pending_insert
pending_insert-AllTargets blk b [] h all = (h, tt)
pending_insert-AllTargets blk b (e ∷ es) h all =
    ground (arith, pending_insert-AllTargets blk b es h all.1)

pub pending_get-insert :
    (blk j : ℕ) (b : Block) (es : List Entry)
    → pending_get j (pending_insert blk b es) ≡ (if blk == j then some b else pending_get j es)
unfolding pending_get pending_insert
pending_get-insert blk j b [] = refl
pending_get-insert blk j b (e ∷ es) = ground (arith, pending_get-insert blk j b es)

pub length-pending_insert :
    (blk : ℕ) (b : Block) (es : List Entry) → length es ≤ length (pending_insert blk b es)
unfolding pending_insert
length-pending_insert blk b [] = omega arith
length-pending_insert blk b (e ∷ es) = ground (arith, length-pending_insert blk b es)

-- Writing all the pending blocks gives the disk that they show.
abbrev pub shown : List Entry → Disk → Disk
shown es d blk = elim (pending_get blk es) [ some b ↦ b | none ↦ d blk ]

pending_get-AllAbove : (k : ℕ) (es : List Entry) → AllAbove k es → pending_get k es ≡ none
unfolding pending_get
pending_get-AllAbove k [] all = refl
pending_get-AllAbove k (e ∷ es) all = ground (arith, pending_get-AllAbove k es all.1)

pub overlay-shown :
    (es : List Entry) (d : Disk) (blk : ℕ) → IsSorted es → overlay es d blk ≡ shown es d blk
unfolding pending_get
overlay-shown [] d blk h = refl
overlay-shown (e ∷ es) d blk h =
    ground (arith, overlay-shown es (put_block d e.0 e.1) blk h.1, pending_get-AllAbove e.0 es h.0)
