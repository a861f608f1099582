-- ===== src/Blocking/Paths.antt =====
-- crates/core/src/blocking.rs: the operations on paths. Each walks to the path, and gives the fid back
-- at the end.
use r9p.Base.{
  ℕ, ◌+◌, Bool, not, ◌&&◌, ◌==◌, beq, if◌then◌else◌, bit_and, Bytes, bytes, List, [], ◌∷◌, length,
  Option, none, some, Result, ok, err, from_static,
}
use r9p.Base.Text.{split_from}
use r9p.Base.Run.{◌>>=◌, ◌>>◌, return, lift, get, attempt, ignore}
use r9p.Qid.{Qid, dmdir, oread, owrite, ordwr}
use r9p.Stat.{Stat}
use r9p.Stat.Decode.{decode_dir_entries}
use r9p.Blocking.{Environment, M}
use r9p.Blocking.Fids.{clunk, clone_fid, walk, open_, create, read, write, remove, stat, read_all}

abbrev pub otrunc : ℕ
otrunc = 0x10

unfoldable pub is_name : Bytes → Bool
unfolding beq bytes
is_name name = not (length name == 0) && not (beq name (bytes "."))

unfoldable pub keep_names : List Bytes → List Bytes
unfolding is_name
keep_names [] = []
keep_names (name ∷ names) = if is_name name then name ∷ keep_names names else keep_names names

unfoldable pub path_names : Bytes → List Bytes
unfolding split_from keep_names
path_names path = keep_names (split_from [] path)

module _ {S : Type 0} (env : Environment S) where
  unfoldable pub walk_path : Bytes → M env ℕ
  walk_path path = do
    c ← get
    (elim (path_names path) [
      | [] ↦ clone_fid env c.root_fid
      | name ∷ names ↦ walk env c.root_fid (name ∷ names)
    ])

  unfoldable pub stat_path : Bytes → M env Stat
  stat_path path = do
    fid ← walk_path path
    result ← attempt (stat env fid)
    ignore (clunk env fid)
    lift result

  -- The loop of `decode_dir_entries` has fuel.
  abbrev pub decoded_stats : Option (Result (List Stat)) → M env (List Stat)
  decoded_stats none c = none
  decoded_stats (some r) c = some (r, c)

  unfoldable pub read_dir_stats : ℕ → M env (List Stat)
  read_dir_stats fid = do payload ← read_all env fid; decoded_stats (decode_dir_entries payload)

  -- `self.open(fid, OREAD)?` returns from `list_path`.
  abbrev pub list_opened : ℕ → Stat → M env (Result (List Stat))
  list_opened fid entry =
      if bit_and entry.mode dmdir == 0
      then return (err (from_static "not a directory"))
      else (do qid ← open_ env fid oread; attempt (read_dir_stats fid))

  unfoldable pub list_path : Bytes → M env (List Stat)
  list_path path = do
    fid ← walk_path path
    entry ← stat env fid
    result ← list_opened fid entry
    ignore (clunk env fid)
    lift result

  -- `match open { Ok(_) => next, Err(error) => Err(error) }`, its result kept.
  abbrev pub if_opened : {A : Type 0} → M env A → Result Qid → M env (Result A)
  if_opened next (ok _) = attempt next
  if_opened next (err e) = return (err e)

  unfoldable pub read_path : Bytes → M env Bytes
  read_path path = do
    fid ← walk_path path
    opened ← attempt (open_ env fid oread)
    result ← if_opened (read_all env fid) opened
    ignore (clunk env fid)
    lift result

  unfoldable pub read_path_range : Bytes → ℕ → ℕ → M env Bytes
  read_path_range path offset count = do
    fid ← walk_path path
    opened ← attempt (open_ env fid oread)
    result ← if_opened (read env fid offset count) opened
    ignore (clunk env fid)
    lift result

  -- The fid is given back, and an error of that counts only after a success.
  abbrev pub given_back : {A : Type 0} → ℕ → Result A → M env A
  given_back fid (ok value) = do clunk env fid; return value
  given_back fid (err e) = do ignore (clunk env fid); lift (err e)

  unfoldable pub write_path : Bytes → ℕ → Bytes → M env ℕ
  write_path path offset payload = do
    fid ← walk_path path
    opened ← attempt (open_ env fid owrite)
    result ← if_opened (write env fid offset payload) opened
    given_back fid result

  -- `OWRITE | OTRUNC`, whose bits are apart.
  unfoldable pub write_file : Bytes → Bytes → M env ℕ
  write_file path payload = do
    fid ← walk_path path
    opened ← attempt (open_ env fid (owrite + otrunc))
    result ← if_opened (write env fid 0 payload) opened
    given_back fid result

  abbrev pub created_at : Result (ℕ × Qid) → M env (Result Qid)
  created_at (ok (fid, qid)) = attempt (do clunk env fid; return qid)
  created_at (err e) = return (err e)

  unfoldable pub create_at : Bytes → Bytes → ℕ → ℕ → M env Qid
  create_at parent name perm mode = do
    parent_fid ← walk_path parent
    created ← attempt (create env parent_fid name perm mode)
    result ← created_at created
    given_back parent_fid result

  abbrev pub write_created : ℕ → ℕ → Bytes → Result (Unit {0}) → M env ℕ
  write_created fid offset payload (err e) = do ignore (clunk env fid); lift (err e)
  write_created fid offset payload (ok _) = do
    written ← attempt (write env fid offset payload)
    clunked ← attempt (clunk env fid)
    count ← lift written
    lift clunked
    return count

  unfoldable pub create_write_at : Bytes → Bytes → ℕ → ℕ → ℕ → Bytes → M env ℕ
  create_write_at parent name perm mode offset payload = do
    parent_fid ← walk_path parent
    created ← attempt (create env parent_fid name perm mode)
    parent_clunk ← attempt (clunk env parent_fid)
    (fid, qid) ← lift created
    write_created fid offset payload parent_clunk

  unfoldable pub remove_path : Bytes → M env (Unit {0})
  remove_path path = do fid ← walk_path path; remove env fid

  -- `self.write(fid, 0, data)?` returns from `rpc_path`.
  abbrev pub rpc_answer : ℕ → Bytes → ℕ → M env (Result Bytes)
  rpc_answer fid payload count =
      if count == length payload
      then attempt (read_all env fid)
      else return (err (from_static "short rpc request write"))

  abbrev pub rpc_opened : ℕ → Bytes → Result Qid → M env (Result Bytes)
  rpc_opened fid payload (ok _) = do count ← write env fid 0 payload; rpc_answer fid payload count
  rpc_opened fid payload (err e) = return (err e)

  unfoldable pub rpc_path : Bytes → Bytes → M env Bytes
  rpc_path path payload = do
    fid ← walk_path path
    opened ← attempt (open_ env fid ordwr)
    result ← rpc_opened fid payload opened
    ignore (clunk env fid)
    lift result
