-- ===== src/Base/Stateful.antt =====
-- A method on `&mut self` that returns `Result`: from a state to a result and the state that the
-- method has reached, also when it fails.
use mathlib.Core.Path.{◌≡◌, ap}
use r9p.Base.Errors.{Error, Result, ok, err}

abbrev pub Stateful : Type 0 → Type 0 → Type 0
Stateful S A = S → Result A × S

module _ {S : Type 0} where
  abbrev pub resume : {A B : Type 0} → (A → Stateful S B) → Result A → Stateful S B
  resume f (ok a) s = f a s
  resume f (err e) s = (err e, s)

  infixl 5 ◌>>=◌ ◌>>◌
  unfoldable pub ◌>>=◌ : {A B : Type 0} → Stateful S A → (A → Stateful S B) → Stateful S B
  ◌>>=◌ m f s = let (r, s') = m s in resume f r s'

  unfoldable pub ◌>>◌ : {B : Type 0} → Stateful S (Unit {0}) → Stateful S B → Stateful S B
  m >> k = m >>= λ _. k

  unfoldable pub return : {A : Type 0} → A → Stateful S A
  return a s = (ok a, s)

  unfoldable pub lift : {A : Type 0} → Result A → Stateful S A
  lift r s = (r, s)

  unfoldable pub fail : {A : Type 0} → Error → Stateful S A
  fail e s = (err e, s)

  unfoldable pub modify : (S → S) → Stateful S (Unit {0})
  modify f s = (ok tt, f s)

  pub bind_at :
      {A B : Type 0} (m : Stateful S A) (f : A → Stateful S B) (s : S) {p : Result A × S}
      → m s ≡ p
      → (m >>= f) s ≡ resume f p.0 p.1
  unfolding ◌>>=◌
  bind_at m f s e = ap (λ q. resume f q.0 q.1) e

-- A property of the state that a method keeps, also when it fails.
pub record Keeps {S : Type 0} (P : S → Type 0) {A : Type 0} (m : Stateful S A) : Type 0 where
  pub after : (s : S) → P s → P (m s).1

module _ {S : Type 0} {P : S → Type 0} where
  pub Keeps-bind :
      {A B : Type 0} (m : Stateful S A) (f : A → Stateful S B)
      → Keeps P m
      → ((a : A) → Keeps P (f a))
      → Keeps P (m >>= f)
  unfolding ◌>>=◌
  Keeps-bind {A} m f hm hf = record { after = λ s h. next (m s).0 (m s).1 (hm.after s h) }
    where
      next : (r : Result A) (s' : S) → P s' → P (resume f r s').1
      next (err e) s' h = h
      next (ok a) s' h = (hf a).after s' h

  pub Keeps-then :
      {B : Type 0} (m : Stateful S (Unit {0})) (k : Stateful S B)
      → Keeps P m
      → Keeps P k
      → Keeps P (m >> k)
  unfolding ◌>>◌
  Keeps-then m k hm hk = Keeps-bind m (λ _. k) hm (λ _. hk)

  pub Keeps-return : {A : Type 0} (a : A) → Keeps P (return a)
  unfolding return
  Keeps-return a = record { after = λ s h. h }

  pub Keeps-lift : {A : Type 0} (r : Result A) → Keeps P (lift r)
  unfolding lift
  Keeps-lift r = record { after = λ s h. h }

  pub Keeps-modify : (f : S → S) → ((s : S) → P s → P (f s)) → Keeps P (modify f)
  unfolding modify
  Keeps-modify f keep = record { after = keep }
