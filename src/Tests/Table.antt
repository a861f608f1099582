-- ===== src/Tests/Table.antt =====
-- The request table, and completions behind a flush.
use r9p.Base.{◌≡◌, refl, false, [], ◌∷◌, none, some, ok, err, from_static, arith}
use r9p.Base.Map.{lookup, remove}
use r9p.Qid.{Qid}
use r9p.Flush.{RequestKey, RequestTable, cancelled, finish, flush}
use r9p.Flush.Laws.{IsTable, run, begins, flushed_never_finishes}
use r9p.Session.{Session, config_default, session_new, fail}
use r9p.Server.{ServerRequest, ServerRequestKind, attach_done, error_reply}
use r9p.Server.Complete.{complete, apply_result}
use r9p.Server.Stale.{complete_flushed, concluded}
use r9p.Server.Once.{complete_once}
use r9p.Server.Ended.{IsEnded}
use r9p.Server.Atomic.{complete-Atomic}

abbrev first_key : RequestKey
first_key = record { tag = 7; generation = 0 }

abbrev one_request : RequestTable
one_request = record { next_generation = 1; live = (7, first_key) ∷ [] }

abbrev no_request : RequestTable
no_request = record { next_generation = 1; live = [] }

one_request-IsTable : IsTable one_request
unfolding lookup
one_request-IsTable = record { bounded = omega arith; entries = λ j k l. ground arith }

flush_seven : flush one_request 7 ≡ ok (cancelled first_key, no_request)
unfolding flush lookup remove
flush_seven = refl

-- The tag is used again, for another request, before the stale completion comes.
flushed_never_finishes_example :
    finish (run no_request (begins 7 ∷ [])) first_key ≡ (false, run no_request (begins 7 ∷ []))
flushed_never_finishes_example =
    flushed_never_finishes one_request no_request 7 first_key (begins 7 ∷ []) one_request-IsTable
      (omega arith) flush_seven

abbrev directory_qid : Qid
directory_qid = record { qtype = 0x80; version = 0; path = 1 }

abbrev attach_request : ServerRequest
attach_request = record { key = first_key; kind = ServerRequestKind.attach 1 4294967295 [] [] }

-- The session in which tag 7 is live again, under a new key.
abbrev reused : Session
reused = record (session_new config_default) { requests = run no_request (begins 7 ∷ []) }

complete_flushed_example :
    complete attach_request (ok (attach_done directory_qid)) reused ≡ (none, reused)
complete_flushed_example =
    complete_flushed attach_request (ok (attach_done directory_qid)) reused one_request no_request 7
      (begins 7 ∷ []) one_request-IsTable (omega arith) flush_seven refl

abbrev attaching : Session
attaching = record (session_new config_default) { requests = one_request }

-- After an attach has failed its tag is used again, and the backend answers the first request again.
abbrev attached_again : Session
attached_again = record (session_new config_default) {
  requests =
      run (complete attach_request (err (from_static "no")) attaching).1.requests (begins 7 ∷ []);
}

complete_once_example :
    complete attach_request (ok (attach_done directory_qid)) attached_again ≡ (none, attached_again)
complete_once_example =
    complete_once attach_request (err (from_static "no")) (ok (attach_done directory_qid)) attaching
      attached_again (begins 7 ∷ []) (omega arith) (omega arith) refl

-- The backend answers an attach with an error.
complete-Atomic_example :
    (complete attach_request (err (from_static "no")) attaching
      ≡ (some (error_reply 7 (from_static "no")), concluded first_key attaching))
    × IsEnded first_key attaching (complete attach_request (err (from_static "no")) attaching).1
unfolding finish lookup apply_result fail
complete-Atomic_example =
    complete-Atomic attach_request (err (from_static "no")) attaching (from_static "no") refl refl
