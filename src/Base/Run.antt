-- ===== src/Base/Run.antt =====
-- A method on `&mut self` that returns `Result` and may loop: as `Stateful`, with `none` where the
-- fuel of a loop has run out.
use mathlib.Core.Option.{Option, none, some}
use r9p.Base.Errors.{Result, ok, err}
use r9p.Base.Stateful.{Stateful}

abbrev pub Run : Type 0 → Type 0 → Type 0
Run S A = S → Option (Result A × S)

-- A method without a loop.
abbrev pub always : {S A : Type 0} → Stateful S A → Run S A
always m s = some (m s)

module _ {S : Type 0} where
  abbrev pub resume : {A B : Type 0} → (A → Run S B) → Option (Result A × S) → Option (Result B × S)
  resume f none = none
  resume f (some (err e, s)) = some (err e, s)
  resume f (some (ok a, s)) = f a s

  infixl 5 ◌>>=◌ ◌>>◌
  unfoldable pub ◌>>=◌ : {A B : Type 0} → Run S A → (A → Run S B) → Run S B
  ◌>>=◌ m f s = resume f (m s)

  unfoldable pub ◌>>◌ : {B : Type 0} → Run S (Unit {0}) → Run S B → Run S B
  m >> k = m >>= λ _. k

  unfoldable pub return : {A : Type 0} → A → Run S A
  return a s = some (ok a, s)

  unfoldable pub lift : {A : Type 0} → Result A → Run S A
  lift r s = some (r, s)

  unfoldable pub get : Run S S
  get s = some (ok s, s)

  -- `let result = m;`, with no `?`.
  abbrev pub caught : {A : Type 0} → Option (Result A × S) → Option (Result (Result A) × S)
  caught none = none
  caught (some (r, s)) = some (ok r, s)

  unfoldable pub attempt : {A : Type 0} → Run S A → Run S (Result A)
  attempt m s = caught (m s)

  -- `let _ = m;`.
  abbrev pub dropped : {A : Type 0} → Option (Result A × S) → Option (Result (Unit {0}) × S)
  dropped none = none
  dropped (some (r, s)) = some (ok tt, s)

  unfoldable pub ignore : {A : Type 0} → Run S A → Run S (Unit {0})
  ignore m s = dropped (m s)
