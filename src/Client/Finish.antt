-- ===== src/Client/Finish.antt =====
-- How a request ends under its tag, in the two cases that it is pending and that it is not.
use r9p.Base.{ℕ, ◌≡◌, ◌≢◌, refl, false, ◌==◌, some, none, Result, ok, err, from_static, arith}
use r9p.Base.Map.{lookup, remove}
use r9p.Base.Stateful.{Stateful, ◌>>◌, lift, resume, bind_at}
use r9p.Message.{notag}
use r9p.Flush.{RequestKey, cancelled, unknown, flush}
use r9p.Client.{Client}
use r9p.Client.Receive.{flush_pending, ended, finish_tag, end_error}

pub then_at :
    {S B : Type 0} (m : Stateful S (Unit {0})) (k : Stateful S B) (s : S)
    {p : Result (Unit {0}) × S}
    → m s ≡ p
    → (m >> k) s ≡ resume (λ _. k) p.0 p.1
unfolding ◌>>◌
then_at m k s e = bind_at m (λ _. k) s e

-- The client without the request.
abbrev pub settled : ℕ → Client → Client
settled tag c = record c { pending = record c.pending { live = remove tag c.pending.live } }

pub not_reserved : (tag : ℕ) → tag ≢ notag → (tag == notag) ≡ false
not_reserved tag ne = ground (arith, ne)

module _ (tag : ℕ) (c : Client) (ordinary : (tag == notag) ≡ false) where
  flush_pending-none : lookup tag c.pending.live ≡ none → flush_pending tag c ≡ (ok unknown, c)
  unfolding flush_pending flush
  flush_pending-none e = rw (ordinary, e, flush_pending, flush) refl

  pub finish_tag-none :
      lookup tag c.pending.live ≡ none
      → finish_tag tag c ≡ (err (from_static "unknown response tag"), c)
  unfolding finish_tag lift
  finish_tag-none e = bind_at (flush_pending tag) (λ o. lift (ended o)) c (flush_pending-none e)

  flush_pending-some :
      {key : RequestKey}
      → lookup tag c.pending.live ≡ some key
      → flush_pending tag c ≡ (ok (cancelled key), settled tag c)
  unfolding flush_pending flush
  flush_pending-some e = rw (ordinary, e, flush_pending, flush) refl

  pub finish_tag-some :
      {key : RequestKey}
      → lookup tag c.pending.live ≡ some key
      → finish_tag tag c ≡ (ok tt, settled tag c)
  unfolding finish_tag lift
  finish_tag-some e = bind_at (flush_pending tag) (λ o. lift (ended o)) c (flush_pending-some e)

  pub end_error_lem : end_error tag c ≡ finish_tag tag c
  unfolding end_error
  end_error_lem = rw (ordinary, end_error) refl
