-- ===== src/Codec/Stream.antt =====
-- crates/core/src/codec.rs: frames on a byte stream. The stream is not the program's: its `read`,
-- `read_exact`, `write_all` and `flush` are parameters, and so is the text of a number. The loop over
-- the four bytes of the size takes fuel, since a stream may report `Interrupted` for ever; `none`
-- means that the fuel ran out.
use r9p.Base.{
  ℕ, zero, suc, ◌-◌, Bool, true, false, ◌&&◌, Bytes, bytes, [], ◌∷◌, ◌++◌, Option, none, some,
  length, ltb, leb, ◌==◌, Result, ok, err, ◌>>=◌, ◌>>◌, ensure, from_static, if◌then◌else◌, Error,
}
use r9p.Wire.{from_le}
use r9p.Message.{TMessage, RMessage}
use r9p.Codec.{frame_header_size}
use r9p.Codec.EncodeRequest.{encode_tmessage_checked}
use r9p.Codec.EncodeResponse.{encode_rmessage_checked}
use r9p.Codec.DecodeRequest.{decode_tmessage}
use r9p.Codec.DecodeResponse.{decode_rmessage}

-- The kinds of error that the code tells apart, of `std::io::ErrorKind`.
pub data IoKind : Type 0 where
  interrupted connection_reset broken_pipe timed_out would_block other : IoKind

-- An input or output error with the text that it is displayed as.
pub record IoError : Type 0 where
  pub kind : IoKind
  pub text : Bytes

pub data IoResult (A : Type 0) : Type 0 where
  done : A → IoResult A
  failed : IoError → IoResult A

-- `Read`: the bytes that one call has put into a buffer of so many bytes.
pub record Source (R : Type 0) : Type 0 where
  pub read : ℕ → R → IoResult Bytes × R
  pub read_exact : ℕ → R → IoResult Bytes × R

-- `Write`.
pub record Sink (W : Type 0) : Type 0 where
  pub write_all : Bytes → W → IoResult (Unit {0}) × W
  pub flush : W → IoResult (Unit {0}) × W

unfoldable pub is_hangup : IoKind → Bool
is_hangup IoKind.connection_reset = true
is_hangup IoKind.broken_pipe = true
is_hangup _ = false

unfoldable pub is_interrupted : IoKind → Bool
is_interrupted IoKind.interrupted = true
is_interrupted _ = false

-- `Error::from(format!("{context}: {error}"))`.
unfoldable pub io_context : Bytes → IoError → Error
unfolding bytes
io_context context e = record { message = context ++ (bytes ": " ++ e.text) }

-- What one read of the size decides: to stop with a result, or to go on with the bytes so far.
pub data PrefixRound : Type 0 where
  stop : Result (Option Bytes) → PrefixRound
  continue : Bytes → PrefixRound

unfoldable pub prefix_round : Bytes → IoResult Bytes → PrefixRound
unfolding is_hangup is_interrupted io_context bytes
prefix_round prefix (done []) =
    if length prefix == 0
    then stop (ok none)
    else stop (err (from_static "truncated 9P frame size"))
prefix_round prefix (done (b ∷ rest)) = continue (prefix ++ (b ∷ rest))
prefix_round prefix (failed e) =
    if is_interrupted e.kind
    then continue prefix
    else (if length prefix == 0 && is_hangup e.kind
        then stop (ok none)
        else stop (err (io_context (bytes "read 9P frame size") e)))

module _ {R : Type 0} (src : Source R) where
  unfoldable pub read_prefix : ℕ → Bytes → R → Option (Result (Option Bytes) × R)
  read_prefix zero prefix r = none
  read_prefix (suc n) prefix r = elim (ltb (length prefix) 4) [
    | false ↦ some (ok (some prefix), r)
    | true ↦ elim (prefix_round prefix (src.read (4 - length prefix) r).0) [
      | stop result ↦ some (result, (src.read (4 - length prefix) r).1)
      | continue prefix' ↦ read_prefix n prefix' (src.read (4 - length prefix) r).1
    ]
  ]

module _ (show : ℕ → Bytes) where
  -- `usize::try_from` of a `u32` cannot fail.
  unfoldable pub check_frame_size : ℕ → ℕ → Result (Unit {0})
  unfolding bytes
  check_frame_size size max_frame_size = do
    ensure (leb frame_header_size size)
        (record { message = bytes "short 9P frame size " ++ show size })
    ensure (leb size max_frame_size) (record {
      message =
          bytes "9P frame size " ++ (show size ++ (bytes " exceeds msize " ++ show max_frame_size));
    })

  unfoldable pub frame_of : Bytes → IoResult Bytes → Result (Option Bytes)
  unfolding io_context bytes
  frame_of prefix (done rest) = ok (some (prefix ++ rest))
  frame_of prefix (failed e) = err (io_context (bytes "read 9P frame body") e)

  module _ {R : Type 0} (src : Source R) where
    unfoldable pub read_body : ℕ → Bytes → R → Result (Option Bytes) × R
    read_body max_frame_size prefix r = elim (check_frame_size (from_le prefix) max_frame_size) [
      | err e ↦ (err e, r)
      | ok _ ↦ (
        frame_of prefix (src.read_exact (from_le prefix - 4) r).0,
        (src.read_exact (from_le prefix - 4) r).1,
      )
    ]

    unfoldable pub after_prefix :
        ℕ → Option (Result (Option Bytes) × R) → Option (Result (Option Bytes) × R)
    after_prefix max_frame_size none = none
    after_prefix max_frame_size (some (err e, r)) = some (err e, r)
    after_prefix max_frame_size (some (ok none, r)) = some (ok none, r)
    after_prefix max_frame_size (some (ok (some prefix), r)) =
        some (read_body max_frame_size prefix r)

    unfoldable pub read_frame_checked : ℕ → ℕ → R → Option (Result (Option Bytes) × R)
    unfolding after_prefix
    read_frame_checked fuel max_frame_size r =
        after_prefix max_frame_size (read_prefix src fuel [] r)

-- `.map(|frame| decode(&frame)).transpose()`.
abbrev pub transposed : {M : Type 0} → (Bytes → Result M) → Option Bytes → Result (Option M)
transposed decode none = ok none
transposed decode (some frame) = do m ← decode frame; ok (some m)

abbrev pub decoded :
    {M R : Type 0}
    → (Bytes → Result M)
    → Option (Result (Option Bytes) × R)
    → Option (Result (Option M) × R)
decoded decode none = none
decoded decode (some (result, r)) = some (result >>= transposed decode, r)

unfoldable pub read_tmessage_checked :
    (ℕ → Bytes) → {R : Type 0} → Source R → ℕ → ℕ → R → Option (Result (Option TMessage) × R)
read_tmessage_checked show src fuel max_frame_size r =
    decoded decode_tmessage (read_frame_checked show src fuel max_frame_size r)

unfoldable pub read_rmessage_checked :
    (ℕ → Bytes) → {R : Type 0} → Source R → ℕ → ℕ → R → Option (Result (Option RMessage) × R)
read_rmessage_checked show src fuel max_frame_size r =
    decoded decode_rmessage (read_frame_checked show src fuel max_frame_size r)

abbrev io_done : Bytes → IoResult (Unit {0}) → Result (Unit {0})
io_done context (done _) = ok tt
io_done context (failed e) = err (io_context context e)

module _ {W : Type 0} (sink : Sink W) where
  -- `writer.write_all(&frame).and_then(|_| writer.flush()).map_err(..)`.
  unfoldable pub write_frame : Bytes → Bytes → W → Result (Unit {0}) × W
  unfolding io_context bytes
  write_frame context frame w = elim (sink.write_all frame w).0 [
    | failed e ↦ (err (io_context context e), (sink.write_all frame w).1)
    | done _ ↦ (
      io_done context (sink.flush (sink.write_all frame w).1).0,
      (sink.flush (sink.write_all frame w).1).1,
    )
  ]

  unfoldable pub write_tmessage_checked : ℕ → TMessage → W → Result (Unit {0}) × W
  unfolding bytes
  write_tmessage_checked msize message w = elim (encode_tmessage_checked message msize) [
    | err e ↦ (err e, w)
    | ok frame ↦ write_frame (bytes "write 9P request frame") frame w
  ]

  unfoldable pub write_rmessage_checked : ℕ → RMessage → W → Result (Unit {0}) × W
  unfolding bytes
  write_rmessage_checked msize message w = elim (encode_rmessage_checked message msize) [
    | err e ↦ (err e, w)
    | ok frame ↦ write_frame (bytes "write 9P response frame") frame w
  ]
