-- ===== src/Server/Atomic.antt =====
-- Completions are atomic: one that fails leaves the session as it was concluded, the fids included.
use r9p.Base.{
  ℕ, ◌≡◌, refl, sym, ap₂, ◌∙◌, Bool, true, false, some, List, [], ◌∷◌, Bytes, if◌then◌else◌, Error,
  Result, ok, err, arith,
}
use r9p.Qid.{Qid}
use r9p.Codec.{Variant}
use r9p.Session.{
  Session, FidState, M, ◌>>=◌, ◌>>◌, resume, return, lift, fail, get_fid, bind_fid, insert_new_fid,
}
use r9p.Server.{
  error_reply, ServerRequestKind, ServerRequest, ServerCompletion, ReadData, bytes_read, directory,
  auth_done, attach_done, walk_done, open_done, create_done, read_done, write_done, clunk_done,
  remove_done, stat_done, wstat_done, rename_at_done, referrals_done,
}
use r9p.Server.Arms.{gets, negotiated_variant}
use r9p.Server.Complete.{
  complete_auth, complete_attach, complete_walk, complete_open, complete_create, complete_read,
  walk_empty, walk_named, bind_walk, read_payload, advance_directory, apply_kind, apply_completion,
  apply_result, complete, reply_of,
}
use r9p.Server.Stale.{concluded, complete_live}
use r9p.Server.Ended.{IsEnded, concluded-IsEnded}
use r9p.Flush.{finish}

-- An action that changes the session only when it succeeds.
pub record Atomic {A : Type 0} (m : M A) : Type 0 where
  pub unchanged : (s : Session) (e : Error) → (m s).0 ≡ err e → (m s).1 ≡ s

-- An action that never changes the session.
record Pure {A : Type 0} (m : M A) : Type 0 where
  same : (s : Session) → (m s).1 ≡ s

-- An action that always succeeds.
record Succeeds {A : Type 0} (m : M A) : Type 0 where
  value : (s : Session) → (a : A) × ((m s).0 ≡ ok a)

Atomic-Pure : {A : Type 0} (m : M A) → Pure m → Atomic m
Atomic-Pure m h = record { unchanged = λ s e bad. h.same s }

Pure-lift : {A : Type 0} (r : Result A) → Pure (lift r)
unfolding lift
Pure-lift r = record { same = λ s. refl }

Pure-fail : {A : Type 0} (e : Error) → Pure (fail {A = A} e)
unfolding fail
Pure-fail e = record { same = λ s. refl }

Pure-return : {A : Type 0} (a : A) → Pure (return a)
unfolding return
Pure-return a = record { same = λ s. refl }

Pure-gets : {A : Type 0} (f : Session → A) → Pure (gets f)
unfolding gets
Pure-gets f = record { same = λ s. refl }

Pure-negotiated_variant : Pure negotiated_variant
unfolding negotiated_variant
Pure-negotiated_variant = record { same = λ s. refl }

Pure-get_fid : (fid : ℕ) → Pure (get_fid fid)
unfolding get_fid
Pure-get_fid fid = record { same = λ s. ground arith }

Succeeds-return : {A : Type 0} (a : A) → Succeeds (return a)
unfolding return
Succeeds-return a = record { value = λ s. (a, refl) }

Succeeds-gets :
    {A B : Type 0} (f : Session → A) (k : A → M B)
    → ((a : A) → Succeeds (k a))
    → Succeeds (gets f >>= k)
unfolding ◌>>=◌ gets
Succeeds-gets f k h = record { value = λ s. (h (f s)).value s }

ok-ne-err : {A B : Type 0} {a : A} {e : Error} → Result.ok a ≡ err e → B
ok-ne-err p = cc

-- An action that changes nothing, then an atomic one.
Atomic-bind :
    {A B : Type 0} (m : M A) (f : A → M B) → Pure m → ((a : A) → Atomic (f a)) → Atomic (m >>= f)
unfolding ◌>>=◌
Atomic-bind {A} m f hm hf = record { unchanged = λ s e bad. go (m s).0 (m s).1 e bad ∙ hm.same s }
  where
    go :
        (r : Result A) (s' : Session) (e : Error)
        → (resume f r s').0 ≡ err e
        → (resume f r s').1 ≡ s'
    go (ok a) s' e bad = (hf a).unchanged s' e bad
    go (err x) s' e bad = refl

Pure-bind :
    {A B : Type 0} (m : M A) (f : A → M B) → Pure m → ((a : A) → Pure (f a)) → Pure (m >>= f)
unfolding ◌>>=◌
Pure-bind {A} m f hm hf = record { same = λ s. go (m s).0 (m s).1 ∙ hm.same s }
  where
    go : (r : Result A) (s' : Session) → (resume f r s').1 ≡ s'
    go (ok a) s' = (hf a).same s'
    go (err x) s' = refl

Atomic-then : {B : Type 0} (m : M (Unit {0})) (k : M B) → Pure m → Atomic k → Atomic (m >> k)
unfolding ◌>>◌
Atomic-then m k hm hk = Atomic-bind m (λ _. k) hm (λ _. hk)

-- An atomic action, then one that cannot fail.
Atomic-last : {B : Type 0} (m : M (Unit {0})) (k : M B) → Atomic m → Succeeds k → Atomic (m >> k)
unfolding ◌>>◌ ◌>>=◌
Atomic-last m k hm hk = record { unchanged = λ s e bad. go s (m s).0 refl e bad }
  where
    go :
        (s : Session) (r : Result (Unit {0}))
        → (m s).0 ≡ r
        → (e : Error) → (resume (λ _. k) r (m s).1).0 ≡ err e
        → (resume (λ _. k) r (m s).1).1 ≡ s
    go s (ok u) now e bad = ok-ne-err (sym (hk.value (m s).1).1 ∙ bad)
    go s (err x) now e bad = hm.unchanged s x now

Atomic-if : {A : Type 0} (b : Bool) (x y : M A) → Atomic x → Atomic y → Atomic (if b then x else y)
Atomic-if true x y hx hy = hx
Atomic-if false x y hx hy = hy

Atomic-bind_fid : (fid : ℕ) (state : FidState) → Atomic (bind_fid fid state)
unfolding bind_fid
Atomic-bind_fid fid state = record { unchanged = λ s e bad. ground arith }

Atomic-insert_new_fid : (fid : ℕ) (state : FidState) → Atomic (insert_new_fid fid state)
unfolding insert_new_fid
Atomic-insert_new_fid fid state = record {
  unchanged = λ s e bad. ground (arith, (Atomic-bind_fid fid state).unchanged s e);
}

ruleset atomic = (
  Atomic-bind, Atomic-then, Atomic-last, Atomic-if, Atomic-Pure, Atomic-bind_fid,
  Atomic-insert_new_fid, Pure-bind, Pure-lift, Pure-fail, Pure-return, Pure-gets,
  Pure-negotiated_variant, Pure-get_fid, Succeeds-return, Succeeds-gets,
)

Pure-read_payload :
    (variant : Variant) (offset count : ℕ) (answer : ReadData)
    → Pure (read_payload variant offset count answer)
unfolding read_payload ◌>>◌
Pure-read_payload variant offset count (bytes_read bytes) = Pure-return _
Pure-read_payload variant offset count (directory stats) =
    Pure-bind _ _ (Pure-lift _) (λ _. Pure-lift _)

Atomic-advance_directory : (fid offset count : ℕ) → Atomic (advance_directory fid offset count)
unfolding advance_directory
Atomic-advance_directory fid offset count = search atomic depth 30

Atomic-walk_named :
    (tag fid newfid : ℕ) (wnames : List Bytes) (qids : List Qid)
    → Atomic (walk_named tag fid newfid wnames qids)
unfolding walk_named bind_walk
Atomic-walk_named tag fid newfid wnames [] = Atomic-Pure _ (Pure-fail _)
Atomic-walk_named tag fid newfid wnames (q ∷ qids) = search atomic depth 30

ruleset completing = (atomic, Pure-read_payload, Atomic-advance_directory, Atomic-walk_named)

Atomic-apply_kind :
    (tag : ℕ) (variant : Variant) (kind : ServerRequestKind) (completion : ServerCompletion)
    → Atomic (apply_kind tag variant kind completion)
unfolding apply_kind complete_auth complete_attach complete_walk complete_open complete_create
    complete_read walk_empty
Atomic-apply_kind tag variant (ServerRequestKind.auth _ _ _) (auth_done _) =
    search completing depth 30
Atomic-apply_kind tag variant (ServerRequestKind.attach _ _ _ _) (attach_done _) =
    search completing depth 30
Atomic-apply_kind tag variant (ServerRequestKind.walk _ _ _ _) (walk_done _) =
    search completing depth 30
Atomic-apply_kind tag variant (ServerRequestKind.open_ _ _ _) (open_done _) =
    search completing depth 30
Atomic-apply_kind tag variant (ServerRequestKind.create _ _ _ _ _) (create_done _) =
    search completing depth 30
Atomic-apply_kind tag variant (ServerRequestKind.read _ _ _ _) (read_done _) =
    search completing depth 30
Atomic-apply_kind tag variant (ServerRequestKind.write _ _ _ _) (write_done _) =
    search completing depth 30
Atomic-apply_kind tag variant (ServerRequestKind.clunk _ _) clunk_done = search completing depth 30
Atomic-apply_kind tag variant (ServerRequestKind.remove _ _) remove_done =
    search completing depth 30
Atomic-apply_kind tag variant (ServerRequestKind.stat _ _) (stat_done _) =
    search completing depth 30
Atomic-apply_kind tag variant (ServerRequestKind.wstat _ _ _) wstat_done =
    search completing depth 30
Atomic-apply_kind tag variant (ServerRequestKind.rename_at _ _ _ _ _ _) rename_at_done =
    search completing depth 30
Atomic-apply_kind tag variant (ServerRequestKind.referrals _ _) (referrals_done _) =
    search completing depth 30
Atomic-apply_kind tag variant kind completion = Atomic-Pure _ (Pure-fail _)

Atomic-apply_result :
    (tag : ℕ) (kind : ServerRequestKind) (completion : Result ServerCompletion)
    → Atomic (apply_result tag kind completion)
unfolding apply_result apply_completion
Atomic-apply_result tag kind (ok completion) =
    Atomic-bind _ _ Pure-negotiated_variant
      (λ variant. Atomic-apply_kind tag variant kind completion)
Atomic-apply_result tag kind (err e) = Atomic-Pure _ (Pure-fail e)

-- The completion of a live request that fails, by the backend or by a check on its answer, is
-- answered with that error, and changes nothing but to end the request and its reservations: the request
-- is live no more and holds no fid, and the fids, the other live requests, their reservations and what
-- was negotiated are as before.
pub complete-Atomic :
    (request : ServerRequest) (completion : Result ServerCompletion) (s : Session) (e : Error)
    → (finish s.requests request.key).0 ≡ true
    → (apply_result request.key.tag request.kind completion (concluded request.key s)).0 ≡ err e
    → (complete request completion s
        ≡ (some (error_reply request.key.tag e), concluded request.key s))
      × IsEnded request.key s (complete request completion s).1
complete-Atomic request completion s e live bad =
    let done : complete request completion s
        ≡ (some (error_reply request.key.tag e), concluded request.key s) =
      complete_live request completion s live
      ∙ ap₂ (λ r s'. (some (reply_of request.key.tag r), s')) bad
          ((Atomic-apply_result request.key.tag request.kind completion).unchanged
            (concluded request.key s) e bad) in
    (done, rw done (concluded-IsEnded request.key s live))
