-- ===== src/Exchange.antt =====
-- crates/core/src/client.rs and server/handlers.rs together: a request of the client that the server
-- handles. The two share the requests, the replies and the message size, and nothing else.
use r9p.Base.{ℕ, ◌≡◌, ◌≢◌, inl, inr, refl, sym, ap, subst, ◌∙◌, Bytes, some, arith}
use r9p.Base.Map.{lookup}
use r9p.Message.{TMessage, RMessage, ttag, rtag, tmessage_type, rmessage_type, notag}
use r9p.Flush.{RequestKey}
use r9p.Server.Ensures.{Answers}
use r9p.Server.Handle.{FileTree, Server, handle}
use r9p.Server.Answers.{handle-Answers}
use r9p.Server.Iounit.{NotVersion, handle-FitsIounit}
use r9p.Client.{Client, Op}
use r9p.Client.Responses.{IsReply, FitsIounit}
use r9p.Client.Settles.{Settled, receive-Settled}

NotVersion-type : (m : TMessage) → NotVersion m → tmessage_type m ≢ 100
unfolding tmessage_type
NotVersion-type (TMessage.version _ _ _) h = absurd h
NotVersion-type m h = omega arith

IsReply-rmessage_type : (r : RMessage) → rmessage_type r ≢ 101 → IsReply r
unfolding rmessage_type
IsReply-rmessage_type (RMessage.version _ _ _) h = absurd (h refl)
IsReply-rmessage_type r h = tt

answer-IsReply :
    (m : TMessage) (r : RMessage) → NotVersion m → Answers (tmessage_type m) (ttag m) r → IsReply r
answer-IsReply m r other (_, inl failed) =
    IsReply-rmessage_type r (λ e. absurd (omega (arith, failed, e)))
answer-IsReply m r other (_, inr own) =
    IsReply-rmessage_type r (λ e. NotVersion-type m other (omega (arith, own, e)))

-- A request that the client has pending, sent to a server of the same message size, is settled by the server's
-- reply: whatever the file tree answers, the client accepts the reply as what it means, frees the tag, and leaves
-- every other request waiting but the target of a flush.
pub handle-Settled :
    {T : Type 0} (tree : FileTree T) (show : ℕ → Bytes) (server : Server T) (c : Client) (op : Op)
    {key : RequestKey}
    → NotVersion op.message
    → ttag op.message ≡ op.tag
    → op.tag ≢ notag
    → lookup op.tag c.pending.live ≡ some key
    → server.session.msize ≡ c.msize
    → Settled show (handle tree op.message server).0 c
handle-Settled tree show server c op other bears ordinary waiting agreed =
    let r = (handle tree op.message server).0 in
    let answers = handle-Answers tree op.message server in
    let own : rtag r ≡ op.tag = answers.0 ∙ bears in
    receive-Settled show r c (answer-IsReply op.message r other answers)
      (λ e. ordinary (sym own ∙ e))
      (subst (λ n. FitsIounit n r) agreed (handle-FitsIounit tree op.message server other))
      (ap (λ t. lookup t c.pending.live) own ∙ waiting)
