-- ===== src/Server/Once.antt =====
-- A request is completed at most once.
use r9p.Base.{
  ℕ, ◌≡◌, ◌<◌, ◌+◌, ◌^◌, refl, ap, ◌∙◌, Bool, inl, inr, Bool-cases, none, Result, List, length,
  arith,
}
use r9p.Flush.{RequestKey, RequestTable, finish}
use r9p.Flush.Laws.{Op, run, run-IsDead, finish-IsDead, IsDead-finish}
use r9p.Session.{Session, FidState, bind_fid, insert_new_fid, release_reservations}
use r9p.Session.Keeps.{Keeps}
use r9p.Server.{ServerRequest, ServerCompletion}
use r9p.Server.Complete.{complete}
use r9p.Server.Completing.{Keeps-apply_result}
use r9p.Server.Stale.{complete_live, complete_stale, finish_stale, concluded}

module _ (t : RequestTable) where
  -- The request table is a given one.
  abbrev Table : Session → Type 0
  Table s = s.requests ≡ t

  binds-Table : (fid : ℕ) (state : FidState) → Keeps Table (bind_fid fid state)
  unfolding bind_fid
  binds-Table fid state = record { after = λ s h. ground arith }

  inserts-Table : (fid : ℕ) (state : FidState) → Keeps Table (insert_new_fid fid state)
  unfolding insert_new_fid bind_fid
  inserts-Table fid state = record { after = λ s h. ground arith }

finish_next :
    (t : RequestTable) (key : RequestKey) → (finish t key).1.next_generation ≡ t.next_generation
unfolding finish
finish_next t key = ground arith

-- A completion ends its request in the table, and does nothing else to it.
complete-finish :
    (request : ServerRequest) (completion : Result ServerCompletion) (s : Session)
    → (complete request completion s).1.requests ≡ (finish s.requests request.key).1
unfolding release_reservations
complete-finish request completion s = elim (Bool-cases (finish s.requests request.key).0) [
  | inr stale ↦
      rw (complete_stale request completion s stale, finish_stale s.requests request.key stale) refl
  | inl live ↦ rw (complete_live request completion s live) (
      (Keeps-apply_result (Table (finish s.requests request.key).1)
          (binds-Table (finish s.requests request.key).1)
          (inserts-Table (finish s.requests request.key).1) request.key.tag request.kind
          completion).after
        (concluded request.key s) refl)
]

-- Once a request whose key was handed out has been completed, with whatever answer and also when it was
-- no longer live, no later completion of it answers the client or changes the session, whatever the
-- request table has been through, the reuse of the tag included; provided its generations do not reach
-- 2 ^ 64.
pub complete_once :
    (request : ServerRequest) (first second : Result ServerCompletion) (s s' : Session)
    (ops : List Op)
    → request.key.generation < s.requests.next_generation
    → s.requests.next_generation + length ops < 2 ^ 64
    → s'.requests ≡ run (complete request first s).1.requests ops
    → complete request second s' ≡ (none, s')
complete_once request first second s s' ops issued room now =
    let dead =
      run-IsDead (finish s.requests request.key).1 ops request.key
        (omega (arith, finish_next s.requests request.key))
        (finish-IsDead s.requests request.key issued) in
    let same : s'.requests ≡ run (finish s.requests request.key).1 ops =
      now ∙ ap (λ t. run t ops) (complete-finish request first s) in
    complete_stale request second s'
      (rw same (ap (λ (p : Bool × RequestTable). p.0) (IsDead-finish _ request.key dead)))
