-- ===== src/Tests/Sessions.antt =====
-- A session over a small tree: negotiation, an attach, and the invariants behind them.
use r9p.Base.{ℕ, ◌+◌, [], ◌∷◌, some, ok, err, from_static}
use r9p.Qid.{Qid}
use r9p.Message.{TMessage, ttag, tmessage_type}
use r9p.Session.{Session, config_default, session_new}
use r9p.Session.Invariant.{Inv}
use r9p.Server.{ServerRequest, ServerRequestKind, ServerCompletion, bytes_read}
use r9p.Server.Admit.{admit}
use r9p.Server.Complete.{complete}
use r9p.Server.Handle.{FileTree, Server, with_defaults, handle}
use r9p.Server.Ensures.{Answers}
use r9p.Server.Answers.{handle-Answers}
use r9p.Server.Version.{IsCleared, Negotiation, admit-Negotiation}
use r9p.Server.Invariant.{session_new-Inv, admit-Inv, complete-Inv, handle-Inv}

abbrev root_qid : Qid
root_qid = record { qtype = 0x80; version = 0; path = 0 }

abbrev file_qid : Qid
file_qid = record { qtype = 0; version = 0; path = 1 }

-- A root directory with one file in it; the state counts the reads.
abbrev pub small_tree : FileTree ℕ
small_tree = with_defaults (record {
  attach = λ fid uname aname n. (ok root_qid, n);
  walk = λ fid newfid start names n. (ok (file_qid ∷ []), n);
  open_ = λ fid qid mode n. (ok (record { qid = qid; iounit = 0 }), n);
  read = λ fid qid offset count n. (ok (bytes_read (1 ∷ 2 ∷ 3 ∷ [])), n + 1);
  stat = λ qid n. (err (from_static "no stat"), n);
})

-- `Tversion` with "9P2000", and an attach of fid 1 by "g".
abbrev version_request : TMessage
version_request = TMessage.version 65535 8192 (b'9' ∷ b'P' ∷ b'2' ∷ b'0' ∷ b'0' ∷ b'0' ∷ [])

abbrev attach_request : TMessage
attach_request = TMessage.attach 1 1 4294967295 (b'g' ∷ []) []

abbrev negotiated : Session
negotiated = (admit version_request (session_new config_default)).1

negotiated-Inv : Inv negotiated
negotiated-Inv =
    admit-Inv version_request (session_new config_default) (session_new-Inv config_default)

admit-Inv_example : Inv (admit attach_request negotiated).1
admit-Inv_example = admit-Inv attach_request negotiated negotiated-Inv

abbrev attaching : ServerRequest
attaching = record {
  key = record { tag = 1; generation = 1 };
  kind = ServerRequestKind.attach 1 4294967295 (b'g' ∷ []) [];
}

complete-Inv_example :
    Inv
      (complete attaching
        (ok (ServerCompletion.attach_done root_qid))
        (admit attach_request negotiated).1).1
complete-Inv_example =
    complete-Inv attaching (ok (ServerCompletion.attach_done root_qid))
      (admit attach_request negotiated).1 (admit-Inv attach_request negotiated negotiated-Inv)

abbrev server : Server ℕ
server = record { session = negotiated; state = 0 }

handle-Inv_example : Inv (handle small_tree attach_request server).1.session
handle-Inv_example = handle-Inv small_tree attach_request server negotiated-Inv

handle-Answers_example :
    Answers
      (tmessage_type attach_request)
      (ttag attach_request)
      (handle small_tree attach_request server).0
handle-Answers_example = handle-Answers small_tree attach_request server

-- A session with one live request, a read of fid 1.
abbrev reading : Session
reading = record (session_new config_default) {
  variant = some r9p.Codec.Variant.plain;
  requests = record { next_generation = 3; live = (4, record { tag = 4; generation = 2 }) ∷ [] };
}

-- A negotiation in a session with a live request.
admit-Negotiation_example :
    let (event, s') = admit version_request reading in
    IsCleared reading s'
    × Negotiation 65535 8192 (b'9' ∷ b'P' ∷ b'2' ∷ b'0' ∷ b'0' ∷ b'0' ∷ []) reading s' event
admit-Negotiation_example =
    admit-Negotiation 65535 8192 (b'9' ∷ b'P' ∷ b'2' ∷ b'0' ∷ b'0' ∷ b'0' ∷ []) reading

abbrev read_request : ServerRequest
read_request = record {
  key = record { tag = 4; generation = 2 };
  kind = ServerRequestKind.read 1 file_qid 0 2;
}
