-- ===== src/Server/FlushArm.antt =====
-- crates/core/src/server/handlers.rs: the `Tflush` arm of `admit_after_begin`, in one step.
use r9p.Base.{ℕ, ◌≡◌, refl, ap, Result, ok, err}
use r9p.Message.{RMessage}
use r9p.Flush.{RequestKey, RequestTable, FlushOutcome, cancelled, unknown, finish, flush}
use r9p.Session.{Session, release_reservations, release_all, ◌>>=◌, ◌>>◌, return, resume, M}
use r9p.Server.{ServerEvent, flushed}
use r9p.Server.Arms.{admit_flush, flush_request, release_cancelled, finish_request}

flush_request_at :
    (oldtag : ℕ) (s : Session) (r : Result (FlushOutcome × RequestTable))
    → flush s.requests oldtag ≡ r
    → flush_request oldtag s ≡ elim r as (λ _. Result FlushOutcome × Session) [
      | ok (o, t) ↦ (ok o, record s { requests = t })
      | err e ↦ (err e, s)
    ]
unfolding flush_request
flush_request_at oldtag s (ok (o, t)) eq = rw (eq, flush_request) refl
flush_request_at oldtag s (err e) eq = rw (eq, flush_request) refl

bind_at :
    {A B : Type 0} (m : M A) (f : A → M B) (s : Session) {p : Result A × Session}
    → m s ≡ p
    → (m >>= f) s ≡ resume f p.0 p.1
unfolding ◌>>=◌
bind_at m f s e = ap (λ q. resume f q.0 q.1) e

abbrev after_flush : RequestKey → FlushOutcome → M ServerEvent
after_flush key outcome =
    release_cancelled outcome
    >> (finish_request key >> return (flushed (RMessage.flush key.tag) outcome))

-- What `admit_flush` yields, for each answer of the request table.
pub flush_arm :
    (key : RequestKey) (oldtag : ℕ) (s : Session) (r : Result (FlushOutcome × RequestTable))
    → flush s.requests oldtag ≡ r
    → admit_flush key oldtag s ≡ elim r as (λ _. Result ServerEvent × Session) [
      | err e ↦ (err e, s)
      | ok (unknown, t) ↦
          (ok (flushed (RMessage.flush key.tag) unknown), record s { requests = (finish t key).1 })
      | ok (cancelled other, t) ↦ (
        ok (flushed (RMessage.flush key.tag) (cancelled other)),
        record s { requests = (finish t key).1; reservations = release_all other s.reservations },
      )
    ]
unfolding admit_flush release_cancelled finish_request release_reservations ◌>>=◌ ◌>>◌ return
flush_arm key oldtag s (err e) eq =
    bind_at (flush_request oldtag) (after_flush key) s (flush_request_at oldtag s _ eq)
flush_arm key oldtag s (ok (unknown, t)) eq =
    bind_at (flush_request oldtag) (after_flush key) s (flush_request_at oldtag s _ eq)
flush_arm key oldtag s (ok (cancelled other, t)) eq =
    bind_at (flush_request oldtag) (after_flush key) s (flush_request_at oldtag s _ eq)
