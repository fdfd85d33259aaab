-- ===== src/Ofs/Run.antt =====
-- Code that changes the file system's state, and that may panic on an index out of bounds.
use openv.Common.{ℕ, ◌≡◌, ap, Bool, Option, none, some}
use openv.Ofs.Device.{Block}
use openv.Ofs.State.{OfsState}
use openv.Ofs.State

-- `none` is a panic.
abbrev pub Run : Type 0 → Type 0
Run A = OfsState → Option (A × OfsState)

abbrev pub pure : {A : Type 0} → A → Run A
pure a s = some (a, s)

abbrev pub panic : {A : Type 0} → Run A
panic s = none

infixl 5 ◌>>=◌ ◌>>◌
abbrev pub ◌>>=◌ : {A B : Type 0} → Run A → (A → Run B) → Run B
◌>>=◌ m f s = elim (m s) [ none ↦ none | some (a, s') ↦ f a s' ]

abbrev pub ◌>>◌ : {A B : Type 0} → Run A → Run B → Run B
◌>>◌ m k = m >>= λ _. k

-- The steps that never panic.
abbrev pub observe : {A : Type 0} → (OfsState → A) → Run A
observe f s = some (f s, s)

abbrev pub modify : (OfsState → OfsState) → Run (Unit {0})
modify f s = some (tt, f s)

abbrev pub read_blk : ℕ → Run (Option Block)
read_blk blk = observe (λ s. State.read_blk s blk)

abbrev pub write_blk : ℕ → Block → Run (Unit {0})
write_blk blk b = modify (State.write_blk blk b)

abbrev pub commit_txn : Run Bool
commit_txn s = some (State.commit_txn s)

-- `let Some(a) = o else { return other }`, and `?`.
abbrev pub when_some : {A B : Type 0} → Option A → Run B → (A → Run B) → Run B
when_some none other f = other
when_some (some a) other f = f a

-- A step whose outcome is known.
pub >>=-some :
    {A B : Type 0} (m : Run A) (f : A → Run B) (s : OfsState) {s' : OfsState} {a : A}
    → m s ≡ some (a, s')
    → (m >>= f) s ≡ f a s'
>>=-some {A} m f s e =
    ap (λ (o : Option (A × OfsState)). elim o [ none ↦ none | some (b, t) ↦ f b t ]) e
