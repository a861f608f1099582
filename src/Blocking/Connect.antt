-- ===== src/Blocking/Connect.antt =====
-- crates/core/src/blocking.rs: `Client::connect_with_variant`, the handshake on a stream.
use r9p.Base.{ℕ, Bytes, bytes, ◌++◌, Option, none, some, Error, Result, ok, err, ok_or}
use r9p.Base.Run.{◌>>=◌, ◌>>◌, lift}
use r9p.Qid.{qtfile}
use r9p.Message.{TMessage, nofid}
use r9p.Codec.{Variant, accept_response}
use r9p.Client.{client_new, version_request_for}
use r9p.Client.Ops
use r9p.Client.Replies.{Completion, ClientResponse}
use r9p.Blocking.{
  Environment, BlockingClient, M, op_fid, unexpected, on_protocol, call_message, call_op,
}

module _ {S : Type 0} (env : Environment S) where
  -- `self.protocol.version_request_for(..)`, which cannot fail.
  unfoldable pub version_request : ℕ → Variant → M env TMessage
  version_request msize variant c = some (
    ok (version_request_for msize variant c.protocol).0,
    record c { protocol = (version_request_for msize variant c.protocol).1 },
  )

  abbrev pub unsupported : Bytes → Error
  unsupported version = record {
    message = bytes "server negotiated unsupported version " ++ env.lossy version;
  }

  abbrev pub version_reply : Variant → ClientResponse → Result Variant
  version_reply requested (ClientResponse.completion tag (Completion.version msize version)) =
      ok_or (accept_response requested version) (unsupported version)
  version_reply requested other = err (unexpected env (bytes "Rversion") (env.debug_response other))

  unfoldable pub set_variant : Variant → M env (Unit {0})
  set_variant variant c = some (ok tt, record c { variant = variant })

  abbrev pub attach_reply : ℕ → Completion → M env (Unit {0})
  attach_reply fid (Completion.attach qid) c =
      some (ok tt, record c { root_fid = fid; root_qid = qid })
  attach_reply fid other c =
      some (err (unexpected env (bytes "Rattach") (env.debug_completion other)), c)

  unfoldable pub handshake : Bytes → Bytes → ℕ → Variant → M env (Unit {0})
  handshake uname aname msize requested = do
    request ← version_request msize requested
    response ← call_message env request
    variant ← lift (version_reply requested response)
    set_variant variant
    attach ← on_protocol env (Ops.attach uname aname)
    fid ← lift (op_fid attach)
    completion ← call_op env attach
    attach_reply fid completion

  abbrev pub fresh_client : S → BlockingClient S
  fresh_client stream = record {
    stream = stream;
    protocol = client_new;
    variant = Variant.plain;
    root_fid = nofid;
    root_qid = record { qtype = qtfile; version = 0; path = 0 };
  }

  -- The client that the handshake leaves, or its error.
  abbrev pub connected :
      Option (Result (Unit {0}) × BlockingClient S) → Option (Result (BlockingClient S))
  connected none = none
  connected (some (err e, c)) = some (err e)
  connected (some (ok _, c)) = some (ok c)

  unfoldable pub connect_with_variant :
      S → Bytes → Bytes → ℕ → Variant → Option (Result (BlockingClient S))
  connect_with_variant stream uname aname msize requested =
      connected (handshake uname aname msize requested (fresh_client stream))

  unfoldable pub connect : S → Bytes → Bytes → ℕ → Option (Result (BlockingClient S))
  connect stream uname aname msize = connect_with_variant stream uname aname msize Variant.plain
