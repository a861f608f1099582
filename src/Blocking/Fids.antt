-- ===== src/Blocking/Fids.antt =====
-- crates/core/src/blocking.rs: the operations on fids.
use r9p.Base.{
  ℕ, zero, suc, ◌+◌, max, true, false, ◌==◌, if◌then◌else◌, Bytes, bytes, List, [], ◌∷◌, ◌++◌,
  length, take, Option, none, some, Error, Result, ok, err, ensure, from_static,
}
use r9p.Base.Run.{◌>>=◌, ◌>>◌, return, lift, get, attempt, ignore}
use r9p.Qid.{Qid}
use r9p.Stat.{Stat}
use r9p.Codec.{clamp_read_count, supports_rename_at}
use r9p.Client.Ops
use r9p.Client.Replies.{Completion}
use r9p.Client.Support.{
  checked_read_data, checked_write_count, checked_advance_offset, write_in_chunks,
}
use r9p.Blocking.{Environment, BlockingClient, M, op_fid, unexpected, on_protocol, call_op}

-- `std::result::Result<Fid, usize>`: the new fid, or how many elements the server did accept.
pub data Walked : Type 0 where
  reached : ℕ → Walked
  stopped : ℕ → Walked

abbrev pub get_elem? : List Bytes → ℕ → Option Bytes
get_elem? [] i = none
get_elem? (x ∷ xs) zero = some x
get_elem? (x ∷ xs) (suc i) = get_elem? xs i

unfoldable pub default_read_chunk : ℕ
default_read_chunk = 65536

module _ {S : Type 0} (env : Environment S) where
  -- The reply is not one to the operation.
  abbrev pub unexpected_reply : {A : Type 0} → Bytes → Completion → Result A
  unexpected_reply expected other = err (unexpected env expected (env.debug_completion other))

  abbrev pub clunk_reply : Completion → Result (Unit {0})
  clunk_reply Completion.clunk = ok tt
  clunk_reply other = unexpected_reply (bytes "Rclunk") other

  unfoldable pub clunk : ℕ → M env (Unit {0})
  clunk fid = do
    op ← on_protocol env (Ops.clunk fid)
    completion ← call_op env op
    lift (clunk_reply completion)

  abbrev pub walk_reply : ℕ → ℕ → Completion → M env Walked
  walk_reply newfid names (Completion.walk qids) =
      if length qids == names
      then return (reached newfid)
      else (do ignore (clunk newfid); return (stopped (length qids)))
  walk_reply newfid names other = do
    ignore (clunk newfid)
    lift (unexpected_reply (bytes "Rwalk") other)

  unfoldable pub walk_short : ℕ → List Bytes → M env Walked
  walk_short fid names = do
    op ← on_protocol env (Ops.walk fid names)
    newfid ← lift (op_fid op)
    completion ← call_op env op
    walk_reply newfid (length names) completion

  abbrev pub refusal_of : Result Walked → M env (Option Error)
  refusal_of (ok (reached fid)) = do ignore (clunk fid); return none
  refusal_of (ok (stopped n)) = return none
  refusal_of (err e) = return (some e)

  abbrev pub ask_refusal : Bytes → Result Walked → M env (Option Error)
  ask_refusal name (ok (reached prefix)) = do
    second ← attempt (walk_short prefix (name ∷ []))
    refusal ← refusal_of second
    ignore (clunk prefix)
    return refusal
  ask_refusal name other = return none

  unfoldable pub walk_refusal : ℕ → List Bytes → ℕ → M env (Option Error)
  walk_refusal fid names walked = elim (get_elem? names walked) [
    | none ↦ return none
    | some name ↦ do first ← attempt (walk_short fid (take walked names)); ask_refusal name first
  ]

  -- `client_support::partial_walk`.
  abbrev pub stopped_at : Option Bytes → Bytes
  stopped_at none = env.debug_text (bytes "?")
  stopped_at (some name) = env.debug_text (env.lossy name)

  abbrev pub walk_reason : Option Error → Bytes
  walk_reason none = bytes "), and walking it alone did not say why"
  walk_reason (some reason) = bytes "): " ++ env.lossy reason.message

  unfoldable pub partial_walk : List Bytes → ℕ → Option Error → Error
  unfolding bytes
  partial_walk names walked reason = record {
    message =
        bytes "partial walk: stopped at "
        ++ (stopped_at (get_elem? names walked)
            ++ (bytes " ("
                ++ (env.show (walked + 1)
                    ++ (bytes " of " ++ (env.show (length names) ++ walk_reason reason)))));
  }

  abbrev pub walk_end : ℕ → List Bytes → Walked → M env ℕ
  walk_end fid names (reached newfid) = return newfid
  walk_end fid names (stopped walked) = do
    reason ← walk_refusal fid names walked
    lift (err (partial_walk names walked reason))

  unfoldable pub walk : ℕ → List Bytes → M env ℕ
  walk fid names = do walked ← walk_short fid names; walk_end fid names walked

  unfoldable pub clone_fid : ℕ → M env ℕ
  clone_fid fid = walk fid []

  abbrev pub open_reply : Completion → Result Qid
  open_reply (Completion.open_ qid iounit) = ok qid
  open_reply other = unexpected_reply (bytes "Ropen") other

  unfoldable pub open_ : ℕ → ℕ → M env Qid
  open_ fid mode = do
    op ← on_protocol env (Ops.open_ fid mode)
    completion ← call_op env op
    lift (open_reply completion)

  abbrev pub create_reply : ℕ → Result Completion → M env (ℕ × Qid)
  create_reply fid (ok (Completion.create qid iounit)) = return (fid, qid)
  create_reply fid (ok other) = do
    ignore (clunk fid)
    lift (unexpected_reply (bytes "Rcreate") other)
  create_reply fid (err e) = do ignore (clunk fid); lift (err e)

  unfoldable pub create : ℕ → Bytes → ℕ → ℕ → M env (ℕ × Qid)
  create parent_fid name perm mode = do
    fid ← clone_fid parent_fid
    op ← on_protocol env (Ops.create fid name perm mode)
    reply ← attempt (call_op env op)
    create_reply fid reply

  abbrev pub read_reply : ℕ → Completion → Result Bytes
  read_reply count (Completion.read payload) = checked_read_data payload count
  read_reply count other = unexpected_reply (bytes "Rread") other

  unfoldable pub read : ℕ → ℕ → ℕ → M env Bytes
  read fid offset count = do
    c ← get
    let clamped = clamp_read_count c.protocol.msize count
    op ← on_protocol env (Ops.read fid offset clamped)
    completion ← call_op env op
    lift (read_reply clamped completion)

  abbrev pub write_reply : ℕ → Completion → Result ℕ
  write_reply requested (Completion.write count) = checked_write_count count requested
  write_reply requested other = unexpected_reply (bytes "Rwrite") other

  unfoldable pub write_once : ℕ → ℕ → Bytes → M env ℕ
  write_once fid offset payload = do
    op ← on_protocol env (Ops.write fid offset payload)
    completion ← call_op env op
    lift (write_reply (length payload) completion)

  unfoldable pub max_write_payload : BlockingClient S → ℕ
  max_write_payload c = max (r9p.Codec.max_write_payload c.protocol.msize) 1

  unfoldable pub write : ℕ → ℕ → Bytes → M env ℕ
  write fid offset payload = do
    c ← get
    write_in_chunks (write_once fid) (max_write_payload c) offset payload

  abbrev pub remove_reply : Completion → Result (Unit {0})
  remove_reply Completion.remove = ok tt
  remove_reply other = unexpected_reply (bytes "Rremove") other

  unfoldable pub remove : ℕ → M env (Unit {0})
  remove fid = do
    op ← on_protocol env (Ops.remove_file fid)
    completion ← call_op env op
    lift (remove_reply completion)

  abbrev pub stat_reply : Completion → Result Stat
  stat_reply (Completion.stat entry) = ok entry
  stat_reply other = unexpected_reply (bytes "Rstat") other

  unfoldable pub stat : ℕ → M env Stat
  stat fid = do
    op ← on_protocol env (Ops.stat fid)
    completion ← call_op env op
    lift (stat_reply completion)

  abbrev pub wstat_reply : Completion → Result (Unit {0})
  wstat_reply Completion.wstat = ok tt
  wstat_reply other = unexpected_reply (bytes "Rwstat") other

  unfoldable pub wstat : ℕ → Stat → M env (Unit {0})
  wstat fid entry = do
    op ← on_protocol env (Ops.wstat fid entry)
    completion ← call_op env op
    lift (wstat_reply completion)

  abbrev pub rename_reply : Completion → Result (Unit {0})
  rename_reply Completion.rename_at = ok tt
  rename_reply other = unexpected_reply (bytes "Rrenameat") other

  unfoldable pub rename_at : ℕ → Bytes → ℕ → Bytes → M env (Unit {0})
  rename_at olddirfid oldname newdirfid newname = do
    c ← get
    lift (
        ensure (supports_rename_at c.variant)
          (from_static "server did not negotiate atomic renameat"))
    op ← on_protocol env (Ops.rename_at olddirfid oldname newdirfid newname)
    completion ← call_op env op
    lift (rename_reply completion)

  -- The loop by fuel, over its variables.
  unfoldable pub read_all_loop : ℕ → ℕ → ℕ → Bytes → M env Bytes
  read_all_loop zero fid offset out c = none
  read_all_loop (suc n) fid offset out c =
      (do
        payload ← read fid offset default_read_chunk
        (elim (length payload == 0) [
          | true ↦ return out
          | false ↦ do
            offset' ← lift (checked_advance_offset offset (length payload))
            read_all_loop n fid offset' (out ++ payload)
        ]))
        c

  unfoldable pub read_all : ℕ → M env Bytes
  read_all fid = read_all_loop env.fuel fid 0 []
