-- ===== src/Session/Keeps.antt =====
-- What an action of the session keeps, with a rule for each construct.
use r9p.Base.{ℕ, ◌≡◌, subst, Bool, true, false, if◌then◌else◌, Error, Result, ok, err, arith}
use r9p.Flush.{RequestKey}
use r9p.Session.{Session, M, ◌>>=◌, ◌>>◌, resume, return, lift, fail, get_fid}
use r9p.Session.Invariant.{IsLive, Inv}

-- The invariant, with a live request.
abbrev pub Holding : RequestKey → Session → Type 0
Holding key s = Inv s × IsLive s.requests.live key

pub record Keeps (P : Session → Type 0) {A : Type 0} (m : M A) : Type 0 where
  pub after : (s : Session) → P s → P (m s).1

pub Keeps-bind :
    {P : Session → Type 0} {A B : Type 0} (m : M A) (f : A → M B)
    → Keeps P m
    → ((a : A) → Keeps P (f a))
    → Keeps P (m >>= f)
unfolding ◌>>=◌
Keeps-bind {P} {A} m f hm hf = record { after = λ s h. go (m s).0 (m s).1 (hm.after s h) }
  where
    go : (r : Result A) (s' : Session) → P s' → P (resume f r s').1
    go (ok a) s' h = (hf a).after s' h
    go (err e) s' h = h

pub Keeps-then :
    {P : Session → Type 0} {B : Type 0} (m : M (Unit {0})) (k : M B)
    → Keeps P m
    → Keeps P k
    → Keeps P (m >> k)
unfolding ◌>>◌
Keeps-then m k hm hk = Keeps-bind m (λ _. k) hm (λ _. hk)

pub Keeps-return : {P : Session → Type 0} {A : Type 0} (a : A) → Keeps P (return a)
unfolding return
Keeps-return a = record { after = λ s h. h }

pub Keeps-lift : {P : Session → Type 0} {A : Type 0} (r : Result A) → Keeps P (lift r)
unfolding lift
Keeps-lift r = record { after = λ s h. h }

pub Keeps-fail : {P : Session → Type 0} {A : Type 0} (e : Error) → Keeps P (fail {A = A} e)
unfolding fail
Keeps-fail e = record { after = λ s h. h }

pub Keeps-if :
    {P : Session → Type 0} {A : Type 0} (b : Bool) (x y : M A)
    → Keeps P x
    → Keeps P y
    → Keeps P (if b then x else y)
Keeps-if true x y hx hy = hx
Keeps-if false x y hx hy = hy

pub Keeps-get_fid : {P : Session → Type 0} (fid : ℕ) → Keeps P (get_fid fid)
unfolding get_fid
Keeps-get_fid {P} fid = record { after = λ s h. subst P (same s) h }
  where
    same : (s : Session) → s ≡ (get_fid fid s).1
    same s = ground arith
