-- ===== src/Server/Version.antt =====
-- What a `Tversion` leaves of a session, whichever way the negotiation goes.
use r9p.Base.{
  ℕ, ◌≡◌, ◌≢◌, ◌≤◌, ◌<◌, ◌-◌, ◌^◌, refl, sym, inl, inr, true, false, Bool-cases, Option-cases, none,
  some, Bytes, bytes, [], min, ltb, Result, ok, err, from_static, subst, ◌∙◌, arith,
}
use r9p.Message.{TMessage, RMessage, ttag, tmessage_type, tversion}
use r9p.Codec.{Variant, accept, min_msize, wire_name}
use r9p.Codec.Dialects.{Speaks, dialect, wire_name-dialect, accept_sound, accept_complete}
use r9p.Flush.{reset}
use r9p.Session.{Session, VersionNegotiation, accepted, unknown, invalidate, reset_for_version}
use r9p.Server.{ServerEvent, reply, error_reply}
use r9p.Server.Admit.{admit, admit_version, admit_other}

-- No version is agreed on: the session is as for a new connection with the smallest message size, and
-- every other request is refused and changes nothing.
pub record IsUnnegotiated (s : Session) : Type 0 where
  pub not_negotiated : s.negotiated ≡ false
  pub no_variant : s.variant ≡ none
  pub no_version : s.version ≡ bytes "unknown"
  pub smallest : s.msize ≡ 256
  pub refuses :
      (message : TMessage)
      → tmessage_type message ≢ tversion
      → admit message s
        ≡ (reply (RMessage.error (ttag message) (bytes "version not negotiated")), s)

-- A dialect and a message size are agreed on.
pub record IsNegotiated (v : Variant) (size : ℕ) (s : Session) : Type 0 where
  pub negotiated : s.negotiated ≡ true
  pub variant : s.variant ≡ some v
  pub version : s.version ≡ dialect v
  pub msize : s.msize ≡ size

-- Nothing is left of the fids and requests of before, and the keys of requests go on behind the old.
pub record IsCleared (s s' : Session) : Type 0 where
  pub same_config : s'.config ≡ s.config
  pub no_fids : s'.fids ≡ []
  pub no_reservations : s'.reservations ≡ []
  pub no_requests : s'.requests.live ≡ []
  pub new_keys :
      s.requests.next_generation < 2 ^ 64 - 1
      → s.requests.next_generation < s'.requests.next_generation

-- The three ways in which a negotiation ends, by what is asked for and how the server is configured.
pub data Negotiation (tag msize : ℕ) (version : Bytes) (s s' : Session) : ServerEvent → Type 0 where
  too_small :
      msize < 256
      → IsUnnegotiated s'
      → Negotiation tag msize version s s'
          (reply (RMessage.error tag (bytes "version: message size too small")))
  refused :
      256 ≤ msize
      → ((v : Variant) → ¬ Speaks s.config.variant version v)
      → IsUnnegotiated s'
      → Negotiation tag msize version s s' (reply (RMessage.version tag 256 (bytes "unknown")))
  agreed :
      (v : Variant)
      → 256 ≤ msize
      → Speaks s.config.variant version v
      → IsNegotiated v (min msize s.config.max_msize) s'
      → Negotiation tag msize version s s'
          (reply (RMessage.version tag (min msize s.config.max_msize) (dialect v)))

-- A request that is none for a version goes on to the test of the session.
admit-other :
    (message : TMessage) (s : Session)
    → tmessage_type message ≢ tversion
    → admit message s ≡ admit_other message s
unfolding admit tmessage_type
admit-other (TMessage.version _ _ _) s h = absurd (h refl)
admit-other message s h = refl

other_refused :
    (message : TMessage) (s : Session)
    → s.negotiated ≡ false
    → admit_other message s
      ≡ (reply (RMessage.error (ttag message) (bytes "version not negotiated")), s)
unfolding admit_other error_reply from_static
other_refused message s h = rw h refl

invalidate-IsUnnegotiated : (s : Session) → IsUnnegotiated (invalidate s)
unfolding invalidate
invalidate-IsUnnegotiated s = record {
  not_negotiated = refl;
  no_variant = refl;
  no_version = refl;
  smallest = refl;
  refuses =
      λ message h. admit-other message (invalidate s) h ∙ other_refused message (invalidate s) refl;
}

invalidate-IsCleared : (s : Session) → IsCleared s (invalidate s)
unfolding invalidate reset
invalidate-IsCleared s = record {
  same_config = refl;
  no_fids = refl;
  no_reservations = refl;
  no_requests = refl;
  new_keys = λ h. omega arith;
}

-- The answer to a `Tversion`, from what the negotiation returns and the session it leaves.
abbrev answered : ℕ → Result VersionNegotiation × Session → ServerEvent × Session
answered tag (ok n, s') = (reply (RMessage.version tag s'.msize s'.version), s')
answered tag (err e, s') = (reply (error_reply tag e), s')

admit_version-answered :
    (tag msize : ℕ) (version : Bytes) (s : Session)
    → admit (TMessage.version tag msize version) s
      ≡ answered tag (reset_for_version msize version s)
unfolding admit admit_version
admit_version-answered tag msize version s = ground arith

small_at :
    (msize : ℕ) (version : Bytes) (s : Session)
    → ltb msize min_msize ≡ true
    → reset_for_version msize version s
      ≡ (err (from_static "version: message size too small"), invalidate s)
unfolding reset_for_version
small_at msize version s small = rw (small, reset_for_version) refl

refused_at :
    (msize : ℕ) (version : Bytes) (s : Session)
    → ltb msize min_msize ≡ false
    → accept s.config.variant version ≡ none
    → reset_for_version msize version s ≡ (ok unknown, invalidate s)
unfolding reset_for_version invalidate
refused_at msize version s large none_agreed = rw (large, none_agreed, reset_for_version) refl

-- The session in which a dialect is agreed on.
abbrev in_dialect : Variant → ℕ → Session → Session
in_dialect v size s = record (invalidate s) {
  msize = size;
  version = wire_name v;
  variant = some v;
  negotiated = true;
}

agreed_at :
    (msize : ℕ) (version : Bytes) (s : Session) {v : Variant}
    → ltb msize min_msize ≡ false
    → accept s.config.variant version ≡ some v
    → reset_for_version msize version s
      ≡ (ok accepted, in_dialect v (min msize s.config.max_msize) s)
unfolding reset_for_version invalidate
agreed_at msize version s large some_agreed = rw (large, some_agreed, reset_for_version) refl

-- The state and the event behind a `Tversion`.
abbrev Ends : ℕ → ℕ → Bytes → Session → ServerEvent × Session → Type 0
Ends tag msize version s (event, s') = IsCleared s s' × Negotiation tag msize version s s' event

Ends-small :
    (tag msize : ℕ) (version : Bytes) (s : Session)
    → msize < 256
    → Ends tag msize version s
        (answered tag (err (from_static "version: message size too small"), invalidate s))
unfolding error_reply from_static
Ends-small tag msize version s small =
    (invalidate-IsCleared s, too_small small (invalidate-IsUnnegotiated s))

Ends-refused :
    (tag msize : ℕ) (version : Bytes) (s : Session)
    → 256 ≤ msize
    → accept s.config.variant version ≡ none
    → Ends tag msize version s (answered tag (ok unknown, invalidate s))
unfolding invalidate
Ends-refused tag msize version s large none_agreed = (
  invalidate-IsCleared s,
  refused large
      (λ v speaks.
        absurd (ground (arith, none_agreed, accept_complete s.config.variant version v speaks)))
      (invalidate-IsUnnegotiated s),
)

Ends-agreed :
    (tag msize : ℕ) (version : Bytes) (s : Session) (v : Variant)
    → 256 ≤ msize
    → Speaks s.config.variant version v
    → Ends tag msize version s
        (answered tag (ok accepted, in_dialect v (min msize s.config.max_msize) s))
unfolding invalidate reset
Ends-agreed tag msize version s v large speaks = (
  record {
    same_config = refl;
    no_fids = refl;
    no_reservations = refl;
    no_requests = refl;
    new_keys = (invalidate-IsCleared s).new_keys;
  },
  rw (wire_name-dialect v) (
      agreed v large speaks
        (record { negotiated = refl; variant = refl; version = refl; msize = refl })),
)

reset_for_version-Ends :
    (tag msize : ℕ) (version : Bytes) (s : Session)
    → Ends tag msize version s (answered tag (reset_for_version msize version s))
reset_for_version-Ends tag msize version s = elim (Bool-cases (ltb msize min_msize)) [
  | inl small ↦ rw (small_at msize version s small) (Ends-small tag msize version s (ground arith))
  | inr large ↦ elim (Option-cases (accept s.config.variant version)) [
    | inl none_agreed ↦
        rw (refused_at msize version s large none_agreed)
          (Ends-refused tag msize version s (ground arith) none_agreed)
    | inr (v, some_agreed) ↦ rw (agreed_at msize version s large some_agreed) (
        Ends-agreed tag msize version s v (ground arith)
          (accept_sound s.config.variant version v some_agreed))
  ]
]

-- After a `Tversion`, whatever it asks for and whatever the session was, no fid, reservation or live
-- request is left, the configuration is the same, and keys of requests are new while the generations
-- stay below 2 ^ 64 - 1. A message size below 256 is answered with an error; a version that names no
-- dialect of the server with "unknown"; and both leave a session without a version, which refuses
-- every request but a further `Tversion` and is not changed by it. Else the session has the dialect
-- that both speak and the smaller of the two message sizes, and the reply names these.
pub admit-Negotiation :
    (tag msize : ℕ) (version : Bytes) (s : Session)
    → let (event, s') = admit (TMessage.version tag msize version) s in
      IsCleared s s' × Negotiation tag msize version s s' event
admit-Negotiation tag msize version s =
    subst (Ends tag msize version s) (sym (admit_version-answered tag msize version s))
      (reset_for_version-Ends tag msize version s)
