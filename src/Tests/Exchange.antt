-- ===== src/Tests/Exchange.antt =====
-- A stream that delivers one byte at a time, after some interruptions, and an exchange over it.
use r9p.Base.{
  ℕ, zero, suc, ◌<◌, ◌≡◌, refl, sym, Bytes, [], ◌∷◌, ◌++◌, append-nil, length, take, drop,
  length-append, take-append_left, drop-append_left, leb, le→leb, if◌then◌else◌, none, some, ok,
  arith,
}
use r9p.Base.Map.{lookup}
use r9p.Wire.{to_le}
use r9p.Message.{TMessage, RMessage, ttag, rtag, tmessage_type, rmessage_type}
use r9p.Codec.Frame.{frame_bytes}
use r9p.Codec.RequestLayout.{tbody_bytes}
use r9p.Codec.ResponseLayout.{rbody_bytes}
use r9p.Codec.EncodeRequest.{encode_tmessage_checked}
use r9p.Codec.EncodeResponse.{encode_rmessage_checked}
use r9p.Codec.RoundTrip.{IsRMessage}
use r9p.Codec.Bounds.{encode_tmessage_checked-fits, encode_rmessage_checked-fits}
use r9p.Codec.Stream.{IoKind, IoResult, done, failed, Source, Sink, read_rmessage_checked}
use r9p.Codec.Delivery.{Gives, Delivers, rmessage_arrives}
use r9p.Client.{Op}
use r9p.Blocking.{Environment, BlockingClient, call_op}
use r9p.Blocking.Connect.{fresh_client}
use r9p.Blocking.Exchange.{Accepts, call_op_completes}
use r9p.Client.Replies.{Completion}

-- The bytes to come, and the interruptions before the next one.
abbrev pub Drip : Type 0
Drip = Bytes × ℕ

abbrev drip_read : ℕ → Drip → IoResult Bytes × Drip
drip_read n (xs, suc k) = (failed (record { kind = IoKind.interrupted; text = [] }), (xs, k))
drip_read n ([], zero) = (done [], ([], 0))
drip_read n (x ∷ xs, zero) = (done (x ∷ []), (xs, 0))

abbrev drip_read_exact : ℕ → Drip → IoResult Bytes × Drip
drip_read_exact n (xs, k) =
    if leb n (length xs)
    then (done (take n xs), (drop n xs, k))
    else (failed (record { kind = IoKind.other; text = [] }), ([], k))

abbrev drip_source : Source Drip
drip_source = record { read = drip_read; read_exact = drip_read_exact }

abbrev drip_sink : Sink Drip
drip_sink = record { write_all = λ frame s. (done tt, s); flush = λ s. (done tt, s) }

abbrev to_come : Drip → Bytes
to_come s = s.0

abbrev interruptions : Drip → ℕ
interruptions s = s.1

drip-Gives :
    (n : ℕ) (s : Drip)
    → 0 < n
    → 0 < length (to_come s)
    → Gives to_come interruptions n s (drip_read n s)
drip-Gives n (xs, suc k) room more = Gives.waits _ _ refl refl (omega arith)
drip-Gives n ([], zero) room more = absurd (omega arith)
drip-Gives n (x ∷ xs, zero) room more = Gives.gives x [] _ (omega arith) refl (omega arith)

drip_read_exact_lem :
    (s : Drip) (xs more : Bytes)
    → to_come s ≡ xs ++ more
    → (s' : Drip) × (drip_read_exact (length xs) s ≡ (done xs, s')) × (to_come s' ≡ more)
drip_read_exact_lem (all_bytes, k) xs more e = (
  (more, k),
  rw
      (
        e,
        le→leb (length xs) (length (xs ++ more)) (omega (arith, length-append xs more)),
        take-append_left xs more,
        drop-append_left xs more,
      )
      refl,
  refl,
)

drip-Delivers : Delivers to_come interruptions drip_source
drip-Delivers = record { read_gives = drip-Gives; read_exact_gives = drip_read_exact_lem }

drip-Accepts : Accepts to_come interruptions drip_sink
drip-Accepts = record {
  written = λ frame s. refl;
  flushed = λ s. refl;
  written_pending = λ frame s. refl;
  flushed_pending = λ s. refl;
  written_patience = λ frame s. refl;
  flushed_patience = λ s. refl;
}

abbrev digits : ℕ → Bytes
digits n = b'0' ∷ []

abbrev pub drip_environment : Environment Drip
drip_environment = record {
  source = drip_source;
  sink = drip_sink;
  fuel = 20;
  show = digits;
  lossy = λ xs. xs;
  debug_text = λ xs. xs;
  debug_response = λ x. [];
  debug_completion = λ x. [];
}

abbrev clunked : RMessage
clunked = RMessage.clunk 0

abbrev clunked_frame : Bytes
clunked_frame = frame_bytes (rmessage_type clunked) (rtag clunked) (rbody_bytes clunked)

clunked-IsRMessage : IsRMessage clunked
unfolding rtag
clunked-IsRMessage = record { tag_fits = omega arith; fields_fit = tt; frame_fits = omega arith }

clunked_encoded : encode_rmessage_checked clunked 8192 ≡ ok clunked_frame
clunked_encoded = encode_rmessage_checked-fits clunked 8192 clunked-IsRMessage (omega arith)

-- Two interruptions, and then a byte at a time, with the start of another frame behind it.
rmessage_arrives_example :
    (s' : Drip) × (read_rmessage_checked digits drip_source 20 8192 (clunked_frame ++ (1 ∷ []), 2)
      ≡ some (ok (some clunked), s'))
    × (to_come s' ≡ 1 ∷ [])
rmessage_arrives_example =
    rmessage_arrives to_come interruptions drip_source drip-Delivers digits clunked 8192 20
      clunked_frame (1 ∷ []) (clunked_frame ++ (1 ∷ []), 2) clunked-IsRMessage clunked_encoded refl
      (omega arith)

abbrev clunk_op : Op
clunk_op = record { tag = 0; fid = some 1; message = TMessage.clunk 0 1 }

abbrev clunk_frame : Bytes
clunk_frame =
    frame_bytes (tmessage_type clunk_op.message) (ttag clunk_op.message)
      (tbody_bytes clunk_op.message)

clunk_encoded : encode_tmessage_checked clunk_op.message 8192 ≡ ok clunk_frame
unfolding ttag to_le
clunk_encoded =
    encode_tmessage_checked-fits clunk_op.message 8192
      (record { tag_fits = omega arith; fields_fit = omega arith; frame_fits = omega arith })
      (omega arith)

-- A client that waits for the reply under tag 0.
abbrev waiting_client : BlockingClient Drip
waiting_client = record (fresh_client drip_environment (clunked_frame, 3)) {
  protocol = record {
    msize = 8192;
    version = [];
    requested_msize = none;
    next_tag = 1;
    next_fid = 2;
    pending = record { next_generation = 1; live = (0, record { tag = 0; generation = 0 }) ∷ [] };
    flush_targets = [];
  };
}

call_op_completes_example :
    (c' : BlockingClient Drip) × (call_op drip_environment clunk_op waiting_client
      ≡ some (ok Completion.clunk, c'))
    × (lookup 0 c'.protocol.pending.live ≡ none)
    × (to_come c'.stream ≡ [])
unfolding rtag lookup
call_op_completes_example =
    call_op_completes drip_environment to_come interruptions drip-Delivers drip-Accepts clunk_op
      waiting_client clunked clunk_frame clunked_frame [] {key = record { tag = 0; generation = 0 }}
      refl tt (omega arith) refl tt clunked-IsRMessage clunk_encoded clunked_encoded
      (sym (append-nil clunked_frame)) (omega arith)
