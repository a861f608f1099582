-- ===== src/Blocking/Exchange.antt =====
-- One request and its reply, from the operation to its completion.
use r9p.Base.{
  ℕ, ◌+◌, ◌<◌, ◌≡◌, ◌≢◌, refl, sym, ap, subst, ◌∙◌, Bytes, ◌++◌, none, some, Result, ok, err, arith,
}
use r9p.Base.Map.{lookup}
use r9p.Base.Run.{◌>>=◌, ◌>>◌, lift}
use r9p.Message.{TMessage, RMessage, rtag, notag}
use r9p.Flush.{RequestKey}
use r9p.Codec.EncodeRequest.{encode_tmessage_checked}
use r9p.Codec.EncodeResponse.{encode_rmessage_checked}
use r9p.Codec.RoundTrip.{IsRMessage}
use r9p.Codec.Stream.{done, Sink, write_frame, write_tmessage_checked, read_rmessage_checked}
use r9p.Codec.Delivery.{Delivers, rmessage_arrives}
use r9p.Client.{Op}
use r9p.Client.Replies.{Completion, ClientResponse}
use r9p.Client.Receive.{receive}
use r9p.Client.Responses.{IsReply, FitsIounit, response_of}
use r9p.Client.Settles.{Settled, receive-Settled}
use r9p.Blocking.{
  Environment, BlockingClient, send, read_response, call_message, matched, call_op, on_protocol,
}

-- What the caller of an operation gets for a reply under its tag.
abbrev pub outcome_of : ClientResponse → Result Completion
outcome_of (ClientResponse.completion tag completion) = ok completion
outcome_of (ClientResponse.error tag ename) = err (record { message = ename })

-- A stream that takes every frame, beside the bytes that it delivers.
pub record Accepts {S : Type 0} (pending : S → Bytes) (patience : S → ℕ) (sink : Sink S)
    : Type 0 where
  pub written : (frame : Bytes) (s : S) → (sink.write_all frame s).0 ≡ done tt
  pub flushed : (s : S) → (sink.flush s).0 ≡ done tt
  pub written_pending : (frame : Bytes) (s : S) → pending (sink.write_all frame s).1 ≡ pending s
  pub flushed_pending : (s : S) → pending (sink.flush s).1 ≡ pending s
  pub written_patience : (frame : Bytes) (s : S) → patience (sink.write_all frame s).1 ≡ patience s
  pub flushed_patience : (s : S) → patience (sink.flush s).1 ≡ patience s

abbrev response_tag : ClientResponse → ℕ
response_tag (ClientResponse.completion tag _) = tag
response_tag (ClientResponse.error tag _) = tag

response_tag-of : (r : RMessage) → response_tag (response_of r) ≡ rtag r
unfolding rtag
response_tag-of (RMessage.version tag msize version) = refl
response_tag-of r = refl

matched_own :
    {S : Type 0} (env : Environment S) (x : ClientResponse) (tag : ℕ)
    → response_tag x ≡ tag
    → matched env tag x ≡ outcome_of x
unfolding matched
matched_own env (ClientResponse.completion own completion) tag e = ground arith
matched_own env (ClientResponse.error own ename) tag e = ground arith

module _ {S : Type 0} (env : Environment S) (pending : S → Bytes) (patience : S → ℕ)
    (delivers : Delivers pending patience env.source)
    (accepts : Accepts pending patience env.sink) where
  -- The stream behind a frame that it took.
  abbrev behind : Bytes → S → S
  behind frame s = (env.sink.flush (env.sink.write_all frame s).1).1

  write_lem :
      (msize : ℕ) (message : TMessage) (frame : Bytes) (s : S)
      → encode_tmessage_checked message msize ≡ ok frame
      → write_tmessage_checked env.sink msize message s ≡ (ok tt, behind frame s)
  unfolding write_tmessage_checked write_frame
  write_lem msize message frame s e =
      rw
        (
          e,
          accepts.written frame s,
          accepts.flushed (env.sink.write_all frame s).1,
          write_tmessage_checked,
          write_frame,
        )
        refl

  -- The client behind a request that it wrote.
  abbrev asking : Bytes → BlockingClient S → BlockingClient S
  asking frame c = record c { stream = behind frame c.stream }

  send_lem :
      (message : TMessage) (request : Bytes) (c : BlockingClient S)
      → encode_tmessage_checked message c.protocol.msize ≡ ok request
      → send env message c ≡ some (ok tt, asking request c)
  unfolding send
  send_lem message request c e = rw (write_lem c.protocol.msize message request c.stream e) refl

  read_response_lem :
      (reply : RMessage) (c : BlockingClient S) {s' : S}
      → read_rmessage_checked env.show env.source env.fuel c.protocol.msize c.stream
        ≡ some (ok (some reply), s')
      → read_response env c ≡ some (ok reply, record c { stream = s' })
  unfolding read_response
  read_response_lem reply c e = rw (e, read_response) refl

  on_protocol_lem :
      (reply : RMessage) (c : BlockingClient S)
      → Settled env.show reply c.protocol
      → on_protocol env (receive env.show reply) c
        ≡ some
            (ok (response_of reply), record c { protocol = (receive env.show reply c.protocol).1 })
  unfolding on_protocol
  on_protocol_lem reply c h = rw h.accepted refl

  -- Over a stream that takes the request and delivers the reply's frame, in any pieces, an operation that is
  -- pending ends with what the reply under its tag means: its completion, or the error with its text. The tag is
  -- free again and the stream stands behind the frame. The reply fits the wire, the message size and its I/O
  -- unit, and the fuel covers the size and the interruptions.
  pub call_op_completes :
      (op : Op) (c : BlockingClient S) (reply : RMessage) (request frame more : Bytes)
      {key : RequestKey}
      → rtag reply ≡ op.tag
      → IsReply reply
      → op.tag ≢ notag
      → lookup op.tag c.protocol.pending.live ≡ some key
      → FitsIounit c.protocol.msize reply
      → IsRMessage reply
      → encode_tmessage_checked op.message c.protocol.msize ≡ ok request
      → encode_rmessage_checked reply c.protocol.msize ≡ ok frame
      → pending c.stream ≡ frame ++ more
      → 4 + patience c.stream < env.fuel
      → (c' : BlockingClient S) × (call_op env op c ≡ some (outcome_of (response_of reply), c'))
        × (lookup op.tag c'.protocol.pending.live ≡ none)
        × (pending c'.stream ≡ more)
  unfolding call_op call_message lift ◌>>=◌ ◌>>◌
  call_op_completes op c reply request frame more own is_reply ordinary waiting unit fits asked
        encoded split enough =
      let s1 = behind request c.stream in
      let split1 =
        accepts.flushed_pending (env.sink.write_all request c.stream).1
        ∙ accepts.written_pending request c.stream
        ∙ split in
      let (s', came, rest) =
        rmessage_arrives pending patience env.source delivers env.show reply c.protocol.msize
          env.fuel frame more s1 fits encoded split1
          (omega (
            arith,
            accepts.flushed_patience (env.sink.write_all request c.stream).1,
            accepts.written_patience request c.stream,
          )) in
      let h =
        receive-Settled env.show reply c.protocol is_reply (λ e. ordinary (sym own ∙ e)) unit
          (ap (λ t. lookup t c.protocol.pending.live) own ∙ waiting) in
      (
        record c { stream = s'; protocol = (receive env.show reply c.protocol).1 },
        rw
            (
              send_lem op.message request c asked,
              read_response_lem reply (asking request c) came,
              on_protocol_lem reply (record c { stream = s' }) h,
            )
            (ap
              (λ x.
                some
                  (x, record c { stream = s'; protocol = (receive env.show reply c.protocol).1 }))
              (matched_own env (response_of reply) op.tag (response_tag-of reply ∙ own))),
        subst (λ t. lookup t (receive env.show reply c.protocol).1.pending.live ≡ none) own
            h.released,
        rest,
      )
