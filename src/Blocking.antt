-- ===== src/Blocking.antt =====
-- crates/core/src/blocking.rs: a client that writes a request on a stream and waits for the reply.
-- The stream, the fuel of the loops and the texts that only word an error are parameters. The
-- children are the operations on fids (`Fids`) and on paths (`Paths`), and the connection
-- (`Connect`).
pub mod Fids
pub mod Paths
pub mod Connect
pub mod Exchange
pub mod Releases
pub mod Early
use r9p.Base.{
  ℕ, ◌==◌, if◌then◌else◌, Bytes, bytes, ◌++◌, Option, none, some, Error, Result, ok, err, ok_or,
  from_static,
}
use r9p.Base.Stateful.{Stateful}
use r9p.Base.Run.{Run, ◌>>=◌, ◌>>◌, lift}
use r9p.Qid.{Qid}
use r9p.Message.{TMessage, RMessage, ttag}
use r9p.Codec.{Variant}
use r9p.Codec.Stream.{Source, Sink, read_rmessage_checked, write_tmessage_checked}
use r9p.Client.{Client, Op, abandon}
use r9p.Client.Replies.{Completion, ClientResponse}
use r9p.Client.Receive.{receive}

-- What the program runs on.
pub record Environment (S : Type 0) : Type 0 where
  pub source : Source S
  pub sink : Sink S
  pub fuel : ℕ
  -- The texts of a number, of bytes read as UTF-8, and of values in debugging form.
  pub show : ℕ → Bytes
  pub lossy : Bytes → Bytes
  pub debug_text : Bytes → Bytes
  pub debug_response : ClientResponse → Bytes
  pub debug_completion : Completion → Bytes

pub record BlockingClient (S : Type 0) : Type 0 where
  pub stream : S
  pub protocol : Client
  pub variant : Variant
  pub root_fid : ℕ
  pub root_qid : Qid

unfoldable pub op_fid : Op → Result ℕ
op_fid op = ok_or op.fid (from_static "9P operation did not allocate a fid")

module _ {S : Type 0} (env : Environment S) where
  abbrev pub M : Type 0 → Type 0
  M A = Run (BlockingClient S) A

  unfoldable pub protocol_error : Error → Error
  unfolding bytes
  protocol_error e = record { message = bytes "9P client state: " ++ env.lossy e.message }

  unfoldable pub unexpected : Bytes → Bytes → Error
  unfolding bytes
  unexpected expected got = record {
    message = bytes "expected " ++ (expected ++ (bytes ", got " ++ got));
  }

  -- `.map_err(protocol_error)?` behind a method of the protocol client.
  abbrev pub map_protocol_error : {A : Type 0} → Result A → Result A
  map_protocol_error (ok a) = ok a
  map_protocol_error (err e) = err (protocol_error e)

  unfoldable pub on_protocol : {A : Type 0} → Stateful Client A → M A
  on_protocol m c =
      some (map_protocol_error (m c.protocol).0, record c { protocol = (m c.protocol).1 })

  -- A request that could not be written is abandoned.
  abbrev pub sent : TMessage → Result (Unit {0}) → Client → Client
  sent message (ok _) protocol = protocol
  sent message (err e) protocol = abandon (ttag message) protocol

  unfoldable pub send : TMessage → M (Unit {0})
  send message c =
      let (written, stream') = write_tmessage_checked env.sink c.protocol.msize message c.stream in
      some (written, record c { stream = stream'; protocol = sent message written c.protocol })

  unfoldable pub read_response : M RMessage
  read_response c =
      elim (read_rmessage_checked env.show env.source env.fuel c.protocol.msize c.stream) [
        | none ↦ none
        | some (err e, stream') ↦ some (err e, record c { stream = stream' })
        | some (ok response, stream') ↦ some (
          ok_or response (from_static "9P transport closed before response"),
          record c { stream = stream' },
        )
      ]

  unfoldable pub call_message : TMessage → M ClientResponse
  call_message message = do
    send message
    response ← read_response
    on_protocol (receive env.show response)

  unfoldable pub mismatch : ClientResponse → Error
  unfolding bytes
  mismatch other = record {
    message = bytes "response tag mismatch or unexpected response: " ++ env.debug_response other;
  }

  unfoldable pub matched : ℕ → ClientResponse → Result Completion
  unfolding mismatch
  matched expected_tag (ClientResponse.completion tag completion) =
      if tag == expected_tag
      then ok completion
      else err (mismatch (ClientResponse.completion tag completion))
  matched expected_tag (ClientResponse.error tag ename) =
      if tag == expected_tag
      then err (record { message = ename })
      else err (mismatch (ClientResponse.error tag ename))

  unfoldable pub call_op : Op → M Completion
  call_op op = do response ← call_message op.message; lift (matched op.tag response)
