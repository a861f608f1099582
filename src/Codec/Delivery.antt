-- ===== src/Codec/Delivery.antt =====
-- A message arrives whole however the stream cuts its frame into pieces.
use r9p.Base.{
  ℕ, zero, suc, ◌+◌, ◌-◌, ◌^◌, ◌<◌, ◌≤◌, ◌≡◌, refl, sym, ap, ◌∙◌, Bytes, [], ◌∷◌, ◌++◌,
  append_assoc, append-nil, some, length, length-append, false, ltb, lt→ltb, le→leb, ok, arith,
}
use r9p.Wire.{to_le}
use r9p.Wire.Reads.{length-to_le, from_le-to_le}
use r9p.Message.{TMessage, ttag, tmessage_type, RMessage, rtag, rmessage_type}
use r9p.Codec.{frame_header_size, check_msize}
use r9p.Codec.Frame.{frame_bytes, length-frame_bytes}
use r9p.Codec.RequestLayout.{tbody_bytes}
use r9p.Codec.ResponseLayout.{rbody_bytes}
use r9p.Codec.EncodeRequest.{encode_tmessage_checked}
use r9p.Codec.EncodeResponse.{encode_rmessage_checked}
use r9p.Codec.RoundTrip.{
  IsTMessage, IsRMessage, encode_tmessage_lem, encode_rmessage_lem, decode_tmessage_lem,
  decode_rmessage_lem,
}
use r9p.Codec.Stream.{
  IoKind, IoError, IoResult, done, failed, Source, is_interrupted, prefix_round, continue,
  read_prefix, check_frame_size, frame_of, read_body, after_prefix, read_frame_checked,
  read_tmessage_checked, read_rmessage_checked,
}

append_split :
    (xs ys zs ws : Bytes)
    → xs ++ ys ≡ zs ++ ws
    → length zs ≤ length xs
    → (us : Bytes) × (xs ≡ zs ++ us) × (ws ≡ us ++ ys)
append_split xs ys [] ws e h = (xs, refl, sym e)
append_split [] ys (z ∷ zs) ws e h = absurd (omega arith)
append_split (x ∷ xs) ys (z ∷ zs) ws e h =
    let (us, left, right) = append_split xs ys zs ws (ground arith) (omega arith) in
    (us, ground arith, right)

module _ {R : Type 0} (pending : R → Bytes) (patience : R → ℕ) where
  -- What one read into a buffer of `n` bytes gives while bytes are to come: some of them, or an
  -- interruption.
  pub data Gives (n : ℕ) (r : R) : IoResult Bytes × R → Type 0 where
    gives :
        (b : ℕ) (payload : Bytes) (r' : R)
        → length (b ∷ payload) ≤ n
        → pending r ≡ (b ∷ payload) ++ pending r'
        → patience r' ≤ patience r
        → Gives n r (done (b ∷ payload), r')
    waits :
        (e : IoError) (r' : R)
        → e.kind ≡ IoKind.interrupted
        → pending r' ≡ pending r
        → patience r' < patience r
        → Gives n r (failed e, r')

  -- A stream that delivers its bytes in order, in pieces of any size, interrupted at most so often.
  pub record Delivers (src : Source R) : Type 0 where
    pub read_gives : (n : ℕ) (r : R) → 0 < n → 0 < length (pending r) → Gives n r (src.read n r)
    pub read_exact_gives :
        (r : R) (xs more : Bytes)
        → pending r ≡ xs ++ more
        → (r' : R) × (src.read_exact (length xs) r ≡ (done xs, r')) × (pending r' ≡ more)

  -- One read of the size goes on, with more bytes or less patience.
  progress :
      (n : ℕ) (prefix : Bytes) (r : R) (p : IoResult Bytes × R)
      → Gives n r p
      → (gained : Bytes) × (prefix_round prefix p.0 ≡ continue (prefix ++ gained))
        × (pending r ≡ gained ++ pending p.1)
        × (length gained ≤ n)
        × (patience p.1 < patience r + length gained)
  unfolding prefix_round is_interrupted
  progress n prefix r _ (Gives.gives b payload r' le split calm) =
      (b ∷ payload, refl, split, le, omega arith)
  progress n prefix r _ (Gives.waits e r' kind same less) =
      ([], rw (kind, append-nil) refl, sym same, omega arith, omega arith)

  module _ (src : Source R) (delivers : Delivers src) where
    round_lem :
        (fuel : ℕ) (prefix prefix' : Bytes) (r : R)
        → length prefix < 4
        → prefix_round prefix (src.read (4 - length prefix) r).0 ≡ continue prefix'
        → read_prefix src (suc fuel) prefix r
          ≡ read_prefix src fuel prefix' (src.read (4 - length prefix) r).1
    unfolding read_prefix
    round_lem fuel prefix prefix' r short e = rw (lt→ltb _ _ short, e, read_prefix) refl

    -- The size is read whole, as the prefix and what was missing of it.
    abbrev SizeArrives : ℕ → Bytes → Bytes → Bytes → R → Type 0
    SizeArrives fuel prefix missing more r =
        (r' : R) × (read_prefix src fuel prefix r ≡ some (ok (some (prefix ++ missing)), r'))
        × (pending r' ≡ more)

    SizeArrives-step :
        (fuel : ℕ) (prefix gained left missing more : Bytes) (r : R)
        → length prefix < 4
        → prefix_round prefix (src.read (4 - length prefix) r).0 ≡ continue (prefix ++ gained)
        → missing ≡ gained ++ left
        → SizeArrives fuel (prefix ++ gained) left more (src.read (4 - length prefix) r).1
        → SizeArrives (suc fuel) prefix missing more r
    SizeArrives-step fuel prefix gained left missing more r short goes_on e (r', result, rest) = (
      r',
      rw (e, ← append_assoc prefix gained left)
          (round_lem fuel prefix (prefix ++ gained) r short goes_on ∙ result),
      rest,
    )

    -- The reading of the size, with some of its bytes still missing.
    read_prefix_lem :
        (fuel : ℕ) (prefix missing more : Bytes) (r : R)
        → length prefix + length missing ≡ 4
        → pending r ≡ missing ++ more
        → length missing + patience r < fuel
        → SizeArrives fuel prefix missing more r
    read_prefix_lem zero prefix missing more r four split h = absurd (omega arith)
    read_prefix_lem (suc fuel) prefix [] more r four split h =
        let whole : ltb (length prefix) 4 ≡ false = ground arith in
        (r, unfold read_prefix in rw (append-nil, whole, read_prefix) refl, split)
    read_prefix_lem (suc fuel) prefix (m ∷ missing) more r four split h =
        let (gained, goes_on, came, le, calm) =
          progress (4 - length prefix) prefix r (src.read (4 - length prefix) r) (
            delivers.read_gives (4 - length prefix) r (omega arith)
              (omega (arith, ap length split))) in
        let (left, missing_eq, pending_eq) =
          append_split (m ∷ missing) more gained (pending (src.read (4 - length prefix) r).1)
            (sym split ∙ came) (omega arith) in
        let counted : length (m ∷ missing) ≡ length gained + length left =
          ap length missing_eq ∙ length-append gained left in
        SizeArrives-step fuel prefix gained left (m ∷ missing) more r (omega arith) goes_on
          missing_eq
          (read_prefix_lem fuel (prefix ++ gained) left more (src.read (4 - length prefix) r).1
            (omega (arith, length-append prefix gained)) pending_eq (omega arith))

    check_frame_size_lem :
        (show : ℕ → Bytes) (size max_frame_size : ℕ)
        → frame_header_size ≤ size
        → size ≤ max_frame_size
        → check_frame_size show size max_frame_size ≡ ok tt
    unfolding check_frame_size
    check_frame_size_lem show size max_frame_size h k = rw (le→leb _ _ h, le→leb _ _ k) refl

    -- The reading of a frame behind its size.
    read_body_lem :
        (show : ℕ → Bytes) (max_frame_size size : ℕ) (rest more : Bytes) (r : R)
        → length rest + 4 ≡ size
        → frame_header_size ≤ size
        → size ≤ max_frame_size
        → size < 2 ^ 32
        → pending r ≡ rest ++ more
        → (r' : R) × (read_body show src max_frame_size (to_le 4 size) r
            ≡ (ok (some (to_le 4 size ++ rest)), r'))
          × (pending r' ≡ more)
    unfolding read_body frame_of
    read_body_lem show max_frame_size size rest more r e low high small split =
        let (r', exact, left) = delivers.read_exact_gives r rest more split in
        let count : size - 4 ≡ length rest = omega arith in
        (
          r',
          rw
              (
                from_le-to_le 4 size small,
                check_frame_size_lem show size max_frame_size low high,
                from_le-to_le 4 size small,
                count,
                exact,
                read_body,
              )
              refl,
          left,
        )

    -- A frame within the limit is read, and the stream stands behind it.
    pub frame_arrives :
        (show : ℕ → Bytes) (fuel max_frame_size t tag : ℕ) (body more : Bytes) (r : R)
        → length body + 7 < 2 ^ 32
        → length body + 7 ≤ max_frame_size
        → pending r ≡ frame_bytes t tag body ++ more
        → 4 + patience r < fuel
        → (r' : R) × (read_frame_checked show src fuel max_frame_size r
            ≡ some (ok (some (frame_bytes t tag body)), r'))
          × (pending r' ≡ more)
    unfolding read_frame_checked frame_bytes to_le
    frame_arrives show fuel max_frame_size t tag body more r small fits split h =
        let size = length body + 7 in
        let rest = t ∷ (to_le 2 tag ++ body) in
        let (r1, prefix_read, left) =
          read_prefix_lem fuel [] (to_le 4 size) (rest ++ more) r
            (omega (arith, length-to_le 4 size)) split (omega (arith, length-to_le 4 size)) in
        let (r', body_read, left') =
          read_body_lem show max_frame_size size rest more r1 (omega arith) (omega arith) fits small
            left in
        (
          r',
          ap (after_prefix show src max_frame_size) prefix_read
              ∙ unfold after_prefix in ap some body_read,
          left',
        )

-- A checked frame is the encoded one, within the message size.
check_msize_ok :
    (frame frame' : Bytes) (msize : ℕ)
    → check_msize frame msize ≡ ok frame'
    → (frame' ≡ frame) × (length frame ≤ msize)
unfolding check_msize
check_msize_ok frame frame' msize e = (ground arith, ground arith)

module _ {R : Type 0} (pending : R → Bytes) (patience : R → ℕ) (src : Source R)
    (delivers : Delivers pending patience src) (show : ℕ → Bytes) where
  -- Whatever the pieces in which a stream delivers the frame of a reply that was encoded for the message size,
  -- and whatever follows it, reading with fuel for the size and the interruptions yields the reply, and the stream
  -- stands behind the frame.
  pub rmessage_arrives :
      (m : RMessage) (msize fuel : ℕ) (frame more : Bytes) (r : R)
      → IsRMessage m
      → encode_rmessage_checked m msize ≡ ok frame
      → pending r ≡ frame ++ more
      → 4 + patience r < fuel
      → (r' : R) × (read_rmessage_checked show src fuel msize r ≡ some (ok (some m), r'))
        × (pending r' ≡ more)
  unfolding encode_rmessage_checked read_rmessage_checked
  rmessage_arrives m msize fuel frame more r fits encoded split h =
      let sent = frame_bytes (rmessage_type m) (rtag m) (rbody_bytes m) in
      let (same, le) =
        check_msize_ok sent frame msize (rw (encode_rmessage_lem m fits) at encoded) in
      let (r', came, rest) =
        frame_arrives pending patience src delivers show fuel msize (rmessage_type m) (rtag m)
          (rbody_bytes m) more r fits.frame_fits
          (omega (arith, length-frame_bytes (rmessage_type m) (rtag m) (rbody_bytes m)))
          (split ∙ ap (λ xs. xs ++ more) same) h in
      (r', rw (came, decode_rmessage_lem m fits) refl, rest)

  -- The same for the frame of a request.
  pub tmessage_arrives :
      (m : TMessage) (msize fuel : ℕ) (frame more : Bytes) (r : R)
      → IsTMessage m
      → encode_tmessage_checked m msize ≡ ok frame
      → pending r ≡ frame ++ more
      → 4 + patience r < fuel
      → (r' : R) × (read_tmessage_checked show src fuel msize r ≡ some (ok (some m), r'))
        × (pending r' ≡ more)
  unfolding encode_tmessage_checked read_tmessage_checked
  tmessage_arrives m msize fuel frame more r fits encoded split h =
      let sent = frame_bytes (tmessage_type m) (ttag m) (tbody_bytes m) in
      let (same, le) =
        check_msize_ok sent frame msize (rw (encode_tmessage_lem m fits) at encoded) in
      let (r', came, rest) =
        frame_arrives pending patience src delivers show fuel msize (tmessage_type m) (ttag m)
          (tbody_bytes m) more r fits.frame_fits
          (omega (arith, length-frame_bytes (tmessage_type m) (ttag m) (tbody_bytes m)))
          (split ∙ ap (λ xs. xs ++ more) same) h in
      (r', rw (came, decode_tmessage_lem m fits) refl, rest)
