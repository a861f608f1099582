-- ===== src/Server/Iounit.antt =====
-- The I/O unit of every reply fits the message size of the session.
use r9p.Base.{
  ℕ, ◌≤◌, ◌≡◌, refl, sym, subst, Bool-cases, inl, inr, Result-cases, Error, Result, ok, err, arith,
}
use r9p.Message.{TMessage, RMessage, ttag}
use r9p.Codec.{Variant, max_iounit}
use r9p.Flush.{RequestKey, begin, finish}
use r9p.Session
use r9p.Session.{Session, M, ◌>>=◌, ◌>>◌, resume, return, fail}
use r9p.Session.Keeps.{Keeps, Keeps-lift}
use r9p.Server.{
  ServerEvent, reply, dispatch, flushed, ServerRequestKind, ServerRequest, ServerCompletion,
  open_done, create_done, OpenFile, clamp_iounit, error_reply,
}
use r9p.Server.Arms.{gets, finish_request}
use r9p.Server.Admit.{admit_after_begin, admit_begun, admit_other, admit, finish_with_reply}
use r9p.Server.Complete.{
  complete_open, complete_create, apply_kind, apply_completion, apply_result, complete, reply_of,
}
use r9p.Server.Ensures.{WhenOk, Ensures}
use r9p.Server.Stale.{complete_live, complete_stale, concluded}
use r9p.Server.Handle.{FileTree, Server, or_stale, perform_file_tree_request, answer_event, handle}
use r9p.Client.Responses.{FitsIounit}
use r9p.Server.Msize.{AtMsize, Keeps-bind_fid, Keeps-negotiated_variant, Keeps-admit_after_begin}
use r9p.Server.Plain.{
  Plain, Plain-FitsIounit, PlainEvent, admit_after_begin-Plain, apply_kind-Plain,
}

-- An action on a session of that message size yields a reply whose I/O unit fits it.
record Fits (n : ℕ) (m : M RMessage) : Type 0 where
  after : (s : Session) → s.msize ≡ n → WhenOk (FitsIounit n) (m s).0

Fits-bind :
    {n : ℕ} {A : Type 0} (m : M A) (f : A → M RMessage)
    → Keeps (AtMsize n) m
    → ((a : A) → Fits n (f a))
    → Fits n (m >>= f)
unfolding ◌>>=◌
Fits-bind {n} {A} m f hm hf = record { after = λ s h. next (m s).0 (m s).1 (hm.after s h) }
  where
    next : (r : Result A) (s' : Session) → s'.msize ≡ n → WhenOk (FitsIounit n) (resume f r s').0
    next (ok a) s' h = (hf a).after s' h
    next (err e) s' h = tt

Fits-then :
    {n : ℕ} (m : M (Unit {0})) (k : M RMessage) → Keeps (AtMsize n) m → Fits n k → Fits n (m >> k)
unfolding ◌>>◌
Fits-then m k hm hk = Fits-bind m (λ _. k) hm (λ _. hk)

Fits-msize : {n : ℕ} (f : ℕ → M RMessage) → Fits n (f n) → Fits n (gets (λ s. s.msize) >>= f)
unfolding ◌>>=◌ gets
Fits-msize {n} f h = record {
  after = λ s e. subst (λ k. WhenOk (FitsIounit n) (f k s).0) (sym e) (h.after s e);
}

Fits-return : {n : ℕ} (r : RMessage) → FitsIounit n r → Fits n (return r)
unfolding return
Fits-return r p = record { after = λ s h. p }

Fits-fail : {n : ℕ} (e : Error) → Fits n (fail e)
unfolding fail
Fits-fail e = record { after = λ s h. tt }

-- An action that yields a reply with no I/O unit.
Ensures-Fits : (n : ℕ) (m : M RMessage) → Ensures Plain m → Fits n m
Ensures-Fits n m h = record { after = λ s _. go (m s).0 (h.after s) }
  where
    go : (r : Result RMessage) → WhenOk Plain r → WhenOk (FitsIounit n) r
    go (ok r) p = Plain-FitsIounit n r p
    go (err e) p = tt

clamp_iounit-le : (n iounit : ℕ) → clamp_iounit n iounit ≤ max_iounit n
unfolding clamp_iounit
clamp_iounit-le n iounit = ground arith

-- The answers to an open and to a create.
complete_open-Fits :
    (n tag : ℕ) (variant : Variant) (fid mode : ℕ) (opened : OpenFile)
    → Fits n (complete_open tag variant fid mode opened)
unfolding complete_open
complete_open-Fits n tag variant fid mode opened = Fits-then _ _ (Keeps-lift _) (
    Fits-then _ _ (Keeps-bind_fid _ _)
      (Fits-msize _ (Fits-return _ (clamp_iounit-le n opened.iounit))))

complete_create-Fits :
    (n tag : ℕ) (variant : Variant) (fid mode : ℕ) (opened : OpenFile)
    → Fits n (complete_create tag variant fid mode opened)
unfolding complete_create
complete_create-Fits n tag variant fid mode opened = Fits-then _ _ (Keeps-lift _) (
    Fits-then _ _ (Keeps-bind_fid _ _)
      (Fits-msize _ (Fits-return _ (clamp_iounit-le n opened.iounit))))

apply_kind-Fits :
    (n tag : ℕ) (variant : Variant) (kind : ServerRequestKind) (completion : ServerCompletion)
    → Fits n (apply_kind tag variant kind completion)
unfolding apply_kind
apply_kind-Fits n tag variant (ServerRequestKind.open_ fid qid mode) (open_done opened) =
    complete_open-Fits n tag variant fid mode opened
apply_kind-Fits n tag variant (ServerRequestKind.create fid qid name perm mode)
      (create_done opened) =
    complete_create-Fits n tag variant fid mode opened
apply_kind-Fits n tag variant (ServerRequestKind.open_ _ _ _) completion = Fits-fail _
apply_kind-Fits n tag variant (ServerRequestKind.create _ _ _ _ _) completion = Fits-fail _
apply_kind-Fits n tag variant kind completion = Ensures-Fits n _ (
    apply_kind-Plain tag variant kind completion (λ e. absurd (omega arith))
      (λ e. absurd (omega arith)))

apply_result-Fits :
    (n tag : ℕ) (kind : ServerRequestKind) (completion : Result ServerCompletion)
    → Fits n (apply_result tag kind completion)
unfolding apply_result apply_completion
apply_result-Fits n tag kind (ok completion) =
    Fits-bind _ _ Keeps-negotiated_variant λ variant. apply_kind-Fits n tag variant kind completion
apply_result-Fits n tag kind (err e) = Fits-fail e

reply_of-Fits :
    (n tag : ℕ) (r : Result RMessage) → WhenOk (FitsIounit n) r → FitsIounit n (reply_of tag r)
unfolding error_reply
reply_of-Fits n tag (ok m) h = h
reply_of-Fits n tag (err e) h = tt

complete-Fits :
    (n : ℕ) (request : ServerRequest) (completion : Result ServerCompletion) (s : Session)
    → s.msize ≡ n
    → FitsIounit n (or_stale request.key.tag (complete request completion s).0)
complete-Fits n request completion s at = elim (Bool-cases (finish s.requests request.key).0) [
  | inr stale ↦ rw (complete_stale request completion s stale) (unfold error_reply in tt)
  | inl live ↦ rw (complete_live request completion s live) (
      reply_of-Fits n request.key.tag _ (
        (apply_result-Fits n request.key.tag request.kind completion).after
          (concluded request.key s) (unfold Session.release_reservations in at)))
]

-- What admitting a request leaves: an event with no I/O unit, and the message size.
abbrev Admitted : ℕ → ServerEvent × Session → Type 0
Admitted n (event, s) = PlainEvent event × (s.msize ≡ n)

admit_begun-Admitted :
    (n : ℕ) (m : TMessage) (key : RequestKey) (s : Session)
    → s.msize ≡ n
    → Admitted n (admit_begun m key s)
unfolding admit_begun finish_with_reply error_reply finish_request Session.release_reservations
admit_begun-Admitted n m key s at =
    go (admit_after_begin m key s).0 ((admit_after_begin-Plain m key).after s)
      ((Keeps-admit_after_begin n m key).after s at)
  where
    go :
        (r : Result ServerEvent)
        → WhenOk PlainEvent r
        → (admit_after_begin m key s).1.msize ≡ n
        → Admitted n (elim r as (λ _. ServerEvent × Session) [
          | ok event ↦ (event, (admit_after_begin m key s).1)
          | err x ↦ finish_with_reply key (error_reply (ttag m) x) (admit_after_begin m key s).1
        ])
    go (ok event) h kept = (h, kept)
    go (err x) h kept = (tt, kept)

admit_other-Admitted :
    (n : ℕ) (m : TMessage) (s : Session) → s.msize ≡ n → Admitted n (admit_other m s)
unfolding admit_other error_reply
admit_other-Admitted n m s at = elim (Bool-cases s.negotiated) [
  | inr off ↦ rw (off, admit_other) (tt, at)
  | inl on ↦ elim (Result-cases (begin s.requests (ttag m))) [
    | inr (x, bad) ↦ rw (on, bad, admit_other) (tt, at)
    | inl ((key, requests), good) ↦
        rw (on, good, admit_other)
          (admit_begun-Admitted n m key (record s { requests = requests }) at)
  ]
]

-- Every request but a version.
abbrev pub NotVersion : TMessage → Type 0
NotVersion (TMessage.version _ _ _) = ⊥
NotVersion m = Unit {0}

module _ {T : Type 0} (tree : FileTree T) where
  answer_event-FitsIounit :
      (n : ℕ) (event : ServerEvent) (server : Server T)
      → PlainEvent event
      → server.session.msize ≡ n
      → FitsIounit n (answer_event tree event server).0
  unfolding answer_event
  answer_event-FitsIounit n (reply m) server plain at = Plain-FitsIounit n m plain
  answer_event-FitsIounit n (flushed m o) server plain at = Plain-FitsIounit n m plain
  answer_event-FitsIounit n (dispatch request) server plain at =
      complete-Fits n request (perform_file_tree_request tree request server.state).0 server.session
        at

  handle_other-FitsIounit :
      (n : ℕ) (m : TMessage) (server : Server T)
      → server.session.msize ≡ n
      → FitsIounit n
          (answer_event tree
            (admit_other m server.session).0
            (record { session = (admit_other m server.session).1; state = server.state })).0
  handle_other-FitsIounit n m server at =
      let (plain, kept) = admit_other-Admitted n m server.session at in
      answer_event-FitsIounit n (admit_other m server.session).0 _ plain kept

  -- The I/O unit of the reply to any request but a version fits the session's message size.
  pub handle-FitsIounit :
      (m : TMessage) (server : Server T)
      → NotVersion m
      → FitsIounit server.session.msize (handle tree m server).0
  unfolding handle admit
  handle-FitsIounit (TMessage.version _ _ _) server other = absurd other
  handle-FitsIounit m server other = handle_other-FitsIounit server.session.msize m server refl
