-- ===== src/Server/Answers.antt =====
-- The replies of `complete` and of `handle`; see `Replies`.
use r9p.Base.{
  ℕ, ◌≡◌, refl, sym, ◌∙◌, ap, subst, subst₂, inl, inr, some, Bool-cases, Result, ok, err, arith,
  Bytes, Result-cases, Option-cases, List, [], ◌∷◌,
}
use mathlib.Core.Option.{some-injective, none-ne-some}
use r9p.Message.{TMessage, RMessage, ttag, rtag, tmessage_type, rmessage_type}
use r9p.Codec.{Variant}
use r9p.Qid.{Qid}
use r9p.Flush.{finish}
use r9p.Session.{Session}
use r9p.Server.{
  ServerEvent, reply, dispatch, flushed, ServerRequestKind, ServerRequest, ServerCompletion,
  error_reply, auth_done, attach_done, walk_done, open_done, create_done, read_done, write_done,
  clunk_done, remove_done, stat_done, wstat_done, rename_at_done, referrals_done,
}
use r9p.Server.Ensures.{
  Answers, Concerns, kind_type, WhenOk, Ensures, Ensures-bind, Ensures-then, Ensures-return,
  Ensures-fail, Ensures-if, ensures,
}
use r9p.Server.Complete.{
  apply_kind, apply_completion, apply_result, complete, reply_of, complete_auth, complete_attach,
  complete_walk, complete_open, complete_create, complete_read, walk_empty, walk_named,
}
use r9p.Server.Handle.{FileTree, Server, or_stale, perform_file_tree_request, answer_event, handle}
use r9p.Server.Admit.{admit}
use r9p.Server.Stale.{complete_live, complete_stale, concluded}
use r9p.Server.Replies.{admit-Concerns}

walk_named-Answers :
    (tag fid newfid : ℕ) (wnames : List Bytes) (qids : List Qid)
    → Ensures (Answers 110 tag) (walk_named tag fid newfid wnames qids)
unfolding walk_named rtag rmessage_type
walk_named-Answers tag fid newfid wnames [] = Ensures-fail _
walk_named-Answers tag fid newfid wnames (q ∷ qids) =
    Ensures-then _ _ (Ensures-return _ (refl, inr (omega arith)))

walk_empty-Answers :
    (tag fid newfid : ℕ) (start : Qid) → Ensures (Answers 110 tag) (walk_empty tag fid newfid start)
unfolding walk_empty rtag rmessage_type
walk_empty-Answers tag fid newfid start =
    Ensures-then _ _ (Ensures-return _ (refl, inr (omega arith)))

apply_kind-Answers :
    (tag : ℕ) (variant : Variant) (kind : ServerRequestKind) (completion : ServerCompletion)
    → Ensures (Answers (kind_type kind) tag) (apply_kind tag variant kind completion)
unfolding apply_kind complete_auth complete_attach complete_walk complete_open complete_create
    complete_read rtag rmessage_type
apply_kind-Answers tag variant (ServerRequestKind.walk fid newfid start wnames) (walk_done qids) =
    Ensures-then _ _ (
      Ensures-then _ _ (
        Ensures-if _ _ _ (walk_empty-Answers tag fid newfid start)
          (walk_named-Answers tag fid newfid wnames qids)))
apply_kind-Answers tag variant (ServerRequestKind.auth _ _ _) (auth_done _) =
    search (ensures, inr) depth 20
apply_kind-Answers tag variant (ServerRequestKind.attach _ _ _ _) (attach_done _) =
    search (ensures, inr) depth 20
apply_kind-Answers tag variant (ServerRequestKind.open_ _ _ _) (open_done _) =
    search (ensures, inr) depth 20
apply_kind-Answers tag variant (ServerRequestKind.create _ _ _ _ _) (create_done _) =
    search (ensures, inr) depth 20
apply_kind-Answers tag variant (ServerRequestKind.read _ _ _ _) (read_done _) =
    search (ensures, inr) depth 20
apply_kind-Answers tag variant (ServerRequestKind.write _ _ _ _) (write_done _) =
    search (ensures, inr) depth 20
apply_kind-Answers tag variant (ServerRequestKind.clunk _ _) clunk_done =
    search (ensures, inr) depth 20
apply_kind-Answers tag variant (ServerRequestKind.remove _ _) remove_done =
    search (ensures, inr) depth 20
apply_kind-Answers tag variant (ServerRequestKind.stat _ _) (stat_done _) =
    search (ensures, inr) depth 20
apply_kind-Answers tag variant (ServerRequestKind.wstat _ _ _) wstat_done =
    search (ensures, inr) depth 20
apply_kind-Answers tag variant (ServerRequestKind.rename_at _ _ _ _ _ _) rename_at_done =
    search (ensures, inr) depth 20
apply_kind-Answers tag variant (ServerRequestKind.referrals _ _) (referrals_done _) =
    search (ensures, inr) depth 20
apply_kind-Answers tag variant kind completion = Ensures-fail _

apply_result-Answers :
    (tag : ℕ) (kind : ServerRequestKind) (completion : Result ServerCompletion)
    → Ensures (Answers (kind_type kind) tag) (apply_result tag kind completion)
unfolding apply_result apply_completion
apply_result-Answers tag kind (ok completion) =
    Ensures-bind _ _ λ variant. apply_kind-Answers tag variant kind completion
apply_result-Answers tag kind (err e) = Ensures-fail e

reply_of-Answers :
    (t tag : ℕ) (r : Result RMessage) → WhenOk (Answers t tag) r → Answers t tag (reply_of tag r)
unfolding error_reply rtag rmessage_type
reply_of-Answers t tag (ok m) h = h
reply_of-Answers t tag (err e) h = (refl, inl refl)

-- A completion that yields a reply yields one to its own request.
pub complete-Answers :
    (request : ServerRequest) (completion : Result ServerCompletion) (s : Session) {r : RMessage}
    → (complete request completion s).0 ≡ some r
    → Answers (kind_type request.kind) request.key.tag r
complete-Answers request completion s {r = r} e =
    elim (Bool-cases (finish s.requests request.key).0) [
      | inr stale ↦
          absurd
            (none-ne-some r (ap (λ p. p.0) (sym (complete_stale request completion s stale)) ∙ e))
      | inl live ↦
          subst (Answers (kind_type request.kind) request.key.tag)
            (some-injective _ r (ap (λ p. p.0) (sym (complete_live request completion s live)) ∙ e))
            (reply_of-Answers _ _ _ (
              (apply_result-Answers request.key.tag request.kind completion).after
                (concluded request.key s)))
    ]

or_stale-Answers :
    (request : ServerRequest) (completion : Result ServerCompletion) (s : Session)
    → Answers
        (kind_type request.kind)
        request.key.tag
        (or_stale request.key.tag (complete request completion s).0)
or_stale-Answers request completion s = elim (Option-cases (complete request completion s).0) [
  | inl e ↦ rw e (unfold error_reply rtag rmessage_type in (refl, inl refl))
  | inr (r, e) ↦ rw e (complete-Answers request completion s e)
]

module _ {T : Type 0} (tree : FileTree T) where
  answer_event-Answers :
      (t tag : ℕ) (event : ServerEvent) (server : Server T)
      → Concerns t tag event
      → Answers t tag (answer_event tree event server).0
  unfolding answer_event
  answer_event-Answers t tag (reply m) server h = h
  answer_event-Answers t tag (flushed m o) server h = h
  answer_event-Answers t tag (dispatch request) server h =
      subst₂ (λ u v. Answers u v (answer_event tree (dispatch request) server).0) h.1 h.0
        (or_stale-Answers request (perform_file_tree_request tree request server.state).0
          server.session)

  -- Over any file tree and in any state, a request is answered under its own tag by its own reply
  -- type or by an error.
  pub handle-Answers :
      (m : TMessage) (server : Server T)
      → Answers (tmessage_type m) (ttag m) (handle tree m server).0
  unfolding handle tmessage_type ttag error_reply rtag rmessage_type
  handle-Answers (TMessage.version tag msize version) server =
      elim (Result-cases (tree.reset server.state).0) [
        | inl (u, good) ↦
            rw (good, handle)
              (answer_event-Answers 100 tag
                (admit (TMessage.version tag msize version) server.session).0 _
                (admit-Concerns (TMessage.version tag msize version) server.session))
        | inr (x, bad) ↦ rw (bad, handle) (refl, inl refl)
      ]
  handle-Answers m server =
      answer_event-Answers (tmessage_type m) (ttag m) (admit m server.session).0 _
        (admit-Concerns m server.session)
