-- ===== src/Server/Handle.antt =====
-- crates/core/src/server/mod.rs and handlers.rs: the `FileTree` trait with its default methods,
-- `perform_file_tree_request` and the synchronous `Server::handle`. The tree is the application's: a
-- parameter, whose methods take its state and return it.
use r9p.Base.{
  ℕ, Bytes, List, [], Option, none, some, ◌==◌, if◌then◌else◌, Result, ok, err, from_static,
}
use r9p.Qid.{Qid}
use r9p.Stat.{Stat}
use r9p.Referral.{NamespaceReferral}
use r9p.Message.{TMessage, RMessage, nofid}
use r9p.Session.{Session, invalidate}
use r9p.Server.{
  OpenFile, ReadData, ServerRequestKind, ServerRequest, ServerCompletion, ServerEvent, reply,
  dispatch, flushed, auth_done, attach_done, walk_done, open_done, create_done, read_done,
  write_done, clunk_done, remove_done, stat_done, wstat_done, rename_at_done, referrals_done,
  error_reply,
}
use r9p.Server.Admit.{admit}
use r9p.Server.Complete.{complete}

-- The methods that every tree implements.
pub record RequiredTree (T : Type 0) : Type 0 where
  pub attach : ℕ → Bytes → Bytes → T → Result Qid × T
  pub walk : ℕ → ℕ → Qid → List Bytes → T → Result (List Qid) × T
  pub open_ : ℕ → Qid → ℕ → T → Result OpenFile × T
  pub read : ℕ → Qid → ℕ → ℕ → T → Result ReadData × T
  pub stat : Qid → T → Result Stat × T

pub record FileTree (T : Type 0) : Type 0 where
  pub required : RequiredTree T
  pub open required use *
  pub referrals : ℕ → Qid → T → Result (List NamespaceReferral) × T
  pub reset : T → Result (Unit {0}) × T
  pub auth : ℕ → Bytes → Bytes → T → Result Qid × T
  pub attach_with_auth : ℕ → ℕ → Bytes → Bytes → T → Result Qid × T
  pub create : ℕ → Qid → Bytes → ℕ → ℕ → T → Result OpenFile × T
  pub write : ℕ → Qid → ℕ → Bytes → T → Result ℕ × T
  pub clunk : ℕ → Qid → T → Result (Unit {0}) × T
  pub remove : ℕ → Qid → T → Result (Unit {0}) × T
  pub wstat : ℕ → Qid → Stat → T → Result (Unit {0}) × T
  pub rename_at : ℕ → Qid → Bytes → ℕ → Qid → Bytes → T → Result (Unit {0}) × T

-- The trait's default methods.
unfoldable pub with_defaults : {T : Type 0} → RequiredTree T → FileTree T
with_defaults {T} tree = record {
  required = tree;
  referrals = λ fid qid t. (ok [], t);
  reset = λ t. (ok tt, t);
  auth = λ afid uname aname t. (err (from_static "authentication not required"), t);
  attach_with_auth = λ fid afid uname aname t. (err (from_static "authentication not required"), t);
  create = λ fid qid name perm mode t. (err (from_static "permission denied"), t);
  write = λ fid qid offset data' t. (err (from_static "permission denied"), t);
  clunk = λ fid qid t. (ok tt, t);
  remove = λ fid qid t. (err (from_static "permission denied"), t);
  wstat = λ fid qid stat t. (err (from_static "permission denied"), t);
  rename_at = λ olddirfid olddir oldname newdirfid newdir newname t.
      (err (from_static "permission denied"), t);
}

-- `.map(f)` on what a method answers, with the tree's new state.
abbrev pub answer :
    {A T : Type 0} → (A → ServerCompletion) → Result A × T → Result ServerCompletion × T
answer f (ok a, t) = (ok (f a), t)
answer f (err e, t) = (err e, t)

module _ {T : Type 0} (tree : FileTree T) where
  unfoldable pub perform_kind : ServerRequestKind → T → Result ServerCompletion × T
  perform_kind (ServerRequestKind.auth afid uname aname) t =
      answer auth_done (tree.auth afid uname aname t)
  perform_kind (ServerRequestKind.attach fid afid uname aname) t = answer attach_done (
      if afid == nofid
      then tree.attach fid uname aname t
      else tree.attach_with_auth fid afid uname aname t)
  perform_kind (ServerRequestKind.walk fid newfid start wnames) t =
      answer walk_done (tree.walk fid newfid start wnames t)
  perform_kind (ServerRequestKind.open_ fid qid mode) t =
      answer open_done (tree.open_ fid qid mode t)
  perform_kind (ServerRequestKind.create fid qid name perm mode) t =
      answer create_done (tree.create fid qid name perm mode t)
  perform_kind (ServerRequestKind.read fid qid offset count) t =
      answer read_done (tree.read fid qid offset count t)
  perform_kind (ServerRequestKind.write fid qid offset data') t =
      answer write_done (tree.write fid qid offset data' t)
  perform_kind (ServerRequestKind.clunk fid qid) t = answer (λ _. clunk_done) (tree.clunk fid qid t)
  perform_kind (ServerRequestKind.remove fid qid) t =
      answer (λ _. remove_done) (tree.remove fid qid t)
  perform_kind (ServerRequestKind.stat _ qid) t = answer stat_done (tree.stat qid t)
  perform_kind (ServerRequestKind.wstat fid qid stat) t =
      answer (λ _. wstat_done) (tree.wstat fid qid stat t)
  perform_kind (ServerRequestKind.rename_at olddirfid olddir oldname newdirfid newdir newname) t =
      answer (λ _. rename_at_done)
        (tree.rename_at olddirfid olddir oldname newdirfid newdir newname t)
  perform_kind (ServerRequestKind.referrals fid qid) t =
      answer referrals_done (tree.referrals fid qid t)

  unfoldable pub perform_file_tree_request : ServerRequest → T → Result ServerCompletion × T
  perform_file_tree_request request t = perform_kind request.kind t

abbrev pub or_stale : ℕ → Option RMessage → RMessage
or_stale tag none = error_reply tag (from_static "stale server completion")
or_stale tag (some message) = message

pub record Server (T : Type 0) : Type 0 where
  pub session : Session
  pub state : T

module _ {T : Type 0} (tree : FileTree T) where
  -- What `handle` does with an admitted event.
  unfoldable pub answer_event : ServerEvent → Server T → RMessage × Server T
  answer_event (reply message) server = (message, server)
  answer_event (flushed message outcome) server = (message, server)
  answer_event (dispatch request) server =
      let (result, t) = perform_file_tree_request tree request server.state in
      let (done, s) = complete request result server.session in
      (or_stale request.key.tag done, record { session = s; state = t })

  -- A `Tversion` resets the backend too, and a backend that cannot leaves the session unnegotiated.
  unfoldable pub handle : TMessage → Server T → RMessage × Server T
  handle (TMessage.version tag msize version) server =
      let (event, s) = admit (TMessage.version tag msize version) server.session in
      let (done, t) = tree.reset server.state in
      elim done [
        | ok _ ↦ answer_event event (record { session = s; state = t })
        | err e ↦ (error_reply tag e, record { session = invalidate s; state = t })
      ]
  handle message server =
      let (event, s) = admit message server.session in
      answer_event event (record { session = s; state = server.state })
