-- ===== src/Server/Ensures.antt =====
-- What an action yields when it succeeds, with a rule for each construct; and what a reply and an
-- event owe to the request that they belong to.
use r9p.Base.{ℕ, ◌+◌, ◌≡◌, ◌⊎◌, Bool, true, false, if◌then◌else◌, Error, Result, ok, err}
use r9p.Message.{RMessage, rtag, rmessage_type, rerror}
use r9p.Session.{Session, M, ◌>>=◌, ◌>>◌, resume, return, fail}
use r9p.Server.{ServerEvent, reply, dispatch, flushed, ServerRequestKind}

-- The message type of the request that a kind came from.
abbrev pub kind_type : ServerRequestKind → ℕ
kind_type (ServerRequestKind.auth _ _ _) = 102
kind_type (ServerRequestKind.attach _ _ _ _) = 104
kind_type (ServerRequestKind.walk _ _ _ _) = 110
kind_type (ServerRequestKind.open_ _ _ _) = 112
kind_type (ServerRequestKind.create _ _ _ _ _) = 114
kind_type (ServerRequestKind.read _ _ _ _) = 116
kind_type (ServerRequestKind.write _ _ _ _) = 118
kind_type (ServerRequestKind.clunk _ _) = 120
kind_type (ServerRequestKind.remove _ _) = 122
kind_type (ServerRequestKind.stat _ _) = 124
kind_type (ServerRequestKind.wstat _ _ _) = 126
kind_type (ServerRequestKind.rename_at _ _ _ _ _ _) = 74
kind_type (ServerRequestKind.referrals _ _) = 200

-- A reply to a request of type `t` under `tag`.
abbrev pub Answers : ℕ → ℕ → RMessage → Type 0
Answers t tag r = (rtag r ≡ tag) × ((rmessage_type r ≡ rerror) ⊎ (rmessage_type r ≡ t + 1))

-- An event of a request of type `t` under `tag`: a reply to it, or a dispatch of its kind.
abbrev pub Concerns : ℕ → ℕ → ServerEvent → Type 0
Concerns t tag (reply r) = Answers t tag r
Concerns t tag (flushed r _) = Answers t tag r
Concerns t tag (dispatch request) = (request.key.tag ≡ tag) × (kind_type request.kind ≡ t)

-- What an action yields when it succeeds.
abbrev pub WhenOk : {A : Type 0} → (A → Type 0) → Result A → Type 0
WhenOk P (ok a) = P a
WhenOk P (err e) = Unit {0}

pub record Ensures {A : Type 0} (P : A → Type 0) (m : M A) : Type 0 where
  pub after : (s : Session) → WhenOk P (m s).0

pub Ensures-bind :
    {A B : Type 0} {P : B → Type 0} (m : M A) (f : A → M B)
    → ((a : A) → Ensures P (f a))
    → Ensures P (m >>= f)
unfolding ◌>>=◌
Ensures-bind {A} {P = P} m f h = record { after = λ s. go (m s).0 (m s).1 }
  where
    go : (r : Result A) (s' : Session) → WhenOk P (resume f r s').0
    go (ok a) s' = (h a).after s'
    go (err e) s' = tt

pub Ensures-then :
    {B : Type 0} {P : B → Type 0} (m : M (Unit {0})) (k : M B) → Ensures P k → Ensures P (m >> k)
unfolding ◌>>◌
Ensures-then m k h = Ensures-bind m (λ _. k) (λ _. h)

pub Ensures-return : {A : Type 0} {P : A → Type 0} (a : A) → P a → Ensures P (return a)
unfolding return
Ensures-return a p = record { after = λ s. p }

pub Ensures-fail : {A : Type 0} {P : A → Type 0} (e : Error) → Ensures P (fail e)
unfolding fail
Ensures-fail e = record { after = λ s. tt }

pub Ensures-if :
    {A : Type 0} {P : A → Type 0} (b : Bool) (x y : M A)
    → Ensures P x
    → Ensures P y
    → Ensures P (if b then x else y)
Ensures-if true x y hx hy = hx
Ensures-if false x y hx hy = hy

pub ruleset ensures = (Ensures-bind, Ensures-then, Ensures-return, Ensures-fail)
