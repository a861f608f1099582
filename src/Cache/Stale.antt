-- ===== src/Cache/Stale.antt =====
-- What a change of the namespace hides stays hidden until it is observed again.
use r9p.Base.{
  ℕ, ◌≡◌, ◌⊎◌, refl, subst, Bool, true, false, not, ◌&&◌, ◌||◌, Bool-cases, Option-cases, inl, inr,
  if◌then◌else◌, beq, beq_refl, Bytes, bytes, List, [], ◌∷◌, ◌++◌, Option, none, some, All, any,
  length-append, arith,
}
use r9p.Base.Text.{path_eq}
use r9p.Cache.Keyed.{
  FilePath, find, update, adjust, each, changed, find-update, find-adjust, find-each,
}
use r9p.Cache.{
  StaleReason, is_stale, DirEntry, CachedNode, Nodes, is_dir, stat_if_fresh, directory_if_fresh,
  fresh_stat, fresh_directory, update_stat, seed_child_stats, set_listing, update_directory,
  drop_listing, stale_node, parent_path, drop_parent_listing, zip_agrees, path_is_prefix,
  mark_path_stale, mark_all_stale, parse_absolute_path, mark_changed, mark_namespace_change,
}
use r9p.Cache.Fresh.{
  CacheOp, updates_stat, updates_directory, changes, marks, marks_all, apply, run,
}

-- The operation brings a stat of the path: its own, or in the listing of its parent.
abbrev pub observes : FilePath → CacheOp → Bool
observes p (updates_stat now path new) = path_eq path p
observes p (updates_directory now path entries) =
    any (λ child. path_eq (path ++ (child.name ∷ [])) p) entries
observes p _ = false

-- A change of the first path concerns the second: that or one below it, which goes on behind it by some
-- names; or any if the first is not absolute.
abbrev pub Concerns : Bytes → FilePath → Type 0
Concerns path p =
    (parse_absolute_path path ≡ none)
    ⊎ ((segments rest : FilePath) × (parse_absolute_path path ≡ some segments)
        × (p ≡ segments ++ rest))

zip_agrees-append : (segments rest : FilePath) → zip_agrees (segments ++ rest) segments ≡ true
unfolding zip_agrees
zip_agrees-append [] [] = refl
zip_agrees-append [] (name ∷ rest) = refl
zip_agrees-append (name ∷ segments) rest =
    ground (arith, beq_refl name, zip_agrees-append segments rest)

path_is_prefix-append :
    (segments rest : FilePath) → path_is_prefix segments (segments ++ rest) ≡ true
unfolding path_is_prefix
path_is_prefix-append segments rest =
    rw (zip_agrees-append segments rest) (ground (arith, length-append segments rest))

-- Neither a stat nor a listing of the path is served.
abbrev pub Hidden : FilePath → Nodes → Type 0
Hidden p m = (stat_if_fresh p m ≡ none) × (directory_if_fresh p m ≡ none)

-- By the node alone.
abbrev IsOut : Option CachedNode → Type 0
IsOut o = fresh_stat o ≡ none

Hidden-find : (p : FilePath) (m : Nodes) → IsOut (find p m) → Hidden p m
unfolding stat_if_fresh directory_if_fresh
Hidden-find p m e = (e, go (find p m) e)
  where
    go : (o : Option CachedNode) → IsOut o → fresh_directory o ≡ none
    go none h = refl
    go (some node) h = ground arith

module _ (p : FilePath) where
  abbrev Out : Nodes → Type 0
  Out m = IsOut (find p m)

  update-Out :
      (path : FilePath) (f : Option CachedNode → CachedNode) (m : Nodes)
      → path_eq path p ≡ false
      → Out m
      → Out (update path f m)
  update-Out path f m other h = rw (find-update path p f m, other) h

  changed-IsOut :
      (g : CachedNode → CachedNode) (o : Option CachedNode)
      → ((node : CachedNode) → IsOut (some node) → IsOut (some (g node)))
      → IsOut o
      → IsOut (changed g o)
  changed-IsOut g none keep h = refl
  changed-IsOut g (some node) keep h = keep node h

  adjust-Out :
      (path : FilePath) (g : CachedNode → CachedNode) (m : Nodes)
      → ((node : CachedNode) → IsOut (some node) → IsOut (some (g node)))
      → Out m
      → Out (adjust path g m)
  adjust-Out path g m keep h = elim (Bool-cases (path_eq path p)) [
    | inl here ↦ rw (find-adjust path p g m, here) (changed-IsOut g (find p m) keep h)
    | inr there ↦ rw (find-adjust path p g m, there) h
  ]

  each-Out :
      (f : FilePath → CachedNode → CachedNode) (m : Nodes)
      → ((node : CachedNode) → IsOut (some node) → IsOut (some (f p node)))
      → Out m
      → Out (each f m)
  each-Out f m keep h = rw (find-each p f m) (changed-IsOut (f p) (find p m) keep h)

  seed-Out :
      (now : ℕ) (parent : FilePath) (entries : List DirEntry) (m : Nodes)
      → any (λ child. path_eq (parent ++ (child.name ∷ [])) p) entries ≡ false
      → Out m
      → Out (seed_child_stats now parent entries m)
  unfolding seed_child_stats
  seed-Out now parent [] m other h = h
  seed-Out now parent (child ∷ entries) m other h =
      seed-Out now parent entries _ (ground arith)
        (elim (Bool-cases (beq child.name (bytes ".") || beq child.name (bytes ".."))) [
          | inl dots ↦ rw dots h
          | inr named ↦ rw named (update-Out _ _ m (ground arith) h)
        ])

  update_directory-Out :
      (now : ℕ) (path : FilePath) (entries : List DirEntry) (m : Nodes)
      → any (λ child. path_eq (path ++ (child.name ∷ [])) p) entries ≡ false
      → Out m
      → Out (update_directory now path entries m)
  unfolding update_directory
  update_directory-Out now path entries m other h = elim (Option-cases (find path m)) [
    | inl missing ↦ rw (missing, update_directory) h
    | inr (node, found) ↦
        elim (Bool-cases (is_dir node.stat && not (is_stale node.stat_freshness))) [
          | inr skipped ↦ rw (found, skipped, update_directory) h
          | inl good ↦
              rw (found, good, update_directory)
                (seed-Out now path entries _ other
                  (adjust-Out path (set_listing now entries) m (λ old k. k) h))
        ]
  ]

  stale-IsOut :
      (now : ℕ) (reason : StaleReason) (node : CachedNode)
      → IsOut (some (stale_node now reason node))
  unfolding is_stale
  stale-IsOut now reason node = refl

  dropped-Out : (parent : Option FilePath) (m : Nodes) → Out m → Out (drop_parent_listing parent m)
  dropped-Out none m h = h
  dropped-Out (some parent) m h = adjust-Out parent drop_listing m (λ node k. k) h

  marked-IsOut :
      (b : Bool) (now : ℕ) (reason : StaleReason) (node : CachedNode)
      → IsOut (some node)
      → IsOut (some (if b then stale_node now reason node else node))
  marked-IsOut true now reason node h = stale-IsOut now reason node
  marked-IsOut false now reason node h = h

  mark_path_stale-Out :
      (now : ℕ) (path : FilePath) (reason : StaleReason) (m : Nodes)
      → Out m
      → Out (mark_path_stale now path reason m)
  unfolding mark_path_stale
  mark_path_stale-Out now path reason m h =
      each-Out _ _ (λ node k. marked-IsOut (path_is_prefix path p) now reason node k)
        (dropped-Out (parent_path path) m h)

  mark_all_stale-Out :
      (now : ℕ) (reason : StaleReason) (m : Nodes) → Out (mark_all_stale now reason m)
  unfolding mark_all_stale
  mark_all_stale-Out now reason m =
      rw (find-each p (λ _ node. stale_node now reason node) m) (go (find p m))
    where
      go : (o : Option CachedNode) → IsOut (changed (stale_node now reason) o)
      go none = refl
      go (some node) = stale-IsOut now reason node

  mark_path_stale-hides :
      (now : ℕ) (path : FilePath) (reason : StaleReason) (m : Nodes)
      → path_is_prefix path p ≡ true
      → Out (mark_path_stale now path reason m)
  unfolding mark_path_stale
  mark_path_stale-hides now path reason m below =
      rw
        (find-each p (λ q node. if path_is_prefix path q then stale_node now reason node else node)
          m')
        (go (find p m'))
    where
      m' : Nodes
      m' = drop_parent_listing (parent_path path) m

      go :
          (o : Option CachedNode)
          → IsOut (
              changed
                (λ node. if path_is_prefix path p then stale_node now reason node else node)
                o)
      go none = refl
      go (some node) = rw below (stale-IsOut now reason node)

  mark_changed-Out :
      (now : ℕ) (field path : Bytes) (m : Nodes) → Out m → Out (mark_changed now field path m)
  unfolding mark_changed
  mark_changed-Out now field path m h = elim (Option-cases (parse_absolute_path path)) [
    | inl invalid ↦ rw (invalid, mark_changed) (mark_all_stale-Out now _ m)
    | inr (segments, parsed) ↦ rw (parsed, mark_changed) (mark_path_stale-Out now segments _ m h)
  ]

  mark_changed-hides :
      (now : ℕ) (field path : Bytes) (m : Nodes)
      → Concerns path p
      → Out (mark_changed now field path m)
  unfolding mark_changed
  mark_changed-hides now field path m (inl invalid) =
      rw (invalid, mark_changed) (mark_all_stale-Out now _ m)
  mark_changed-hides now field path m (inr (segments, rest, parsed, behind)) =
      rw (parsed, mark_changed)
        (mark_path_stale-hides now segments _ m (rw behind (path_is_prefix-append segments rest)))

  mark_namespace_change-hides :
      (now : ℕ) (path : Bytes) (old_path : Option Bytes) (m : Nodes)
      → Concerns path p ⊎ ((old : Bytes) × (old_path ≡ some old) × Concerns old p)
      → Out (mark_namespace_change now path old_path m)
  unfolding mark_namespace_change
  mark_namespace_change-hides now path none m (inl about) = mark_changed-hides now _ path m about
  mark_namespace_change-hides now path (some old) m (inl about) =
      mark_changed-Out now _ old _ (mark_changed-hides now _ path m about)
  mark_namespace_change-hides now path none m (inr (old, e, about)) = cc
  mark_namespace_change-hides now path (some given) m (inr (old, e, about)) =
      let same : old ≡ given = ground arith in
      mark_changed-hides now _ given _ (subst (λ x. Concerns x p) same about)

  apply-Out : (m : Nodes) (op : CacheOp) → observes p op ≡ false → Out m → Out (apply m op)
  unfolding apply update_stat mark_namespace_change
  apply-Out m (updates_stat now path new) other h = update-Out path _ m other h
  apply-Out m (updates_directory now path entries) other h =
      update_directory-Out now path entries m other h
  apply-Out m (changes now path none) other h = mark_changed-Out now _ path m h
  apply-Out m (changes now path (some old_path)) other h =
      mark_changed-Out now _ old_path _ (mark_changed-Out now _ path m h)
  apply-Out m (marks now path reason) other h = mark_path_stale-Out now path reason m h
  apply-Out m (marks_all now reason) other h = mark_all_stale-Out now reason m

  run-Out :
      (m : Nodes) (ops : List CacheOp)
      → All (λ op. observes p op ≡ false) ops
      → Out m
      → Out (run m ops)
  unfolding run
  run-Out m [] other h = h
  run-Out m (op ∷ ops) other h = run-Out (apply m op) ops other.1 (apply-Out m op other.0 h)

-- After a change of the namespace, reported with one path or with a new and an old one, nothing is served at these
-- paths or below them, whatever operations follow, until one of them brings a stat of the path itself. A path
-- that is not absolute hides every path.
pub change_hides :
    (m : Nodes) (now : ℕ) (path : Bytes) (old_path : Option Bytes) (p : FilePath)
    (ops : List CacheOp)
    → Concerns path p ⊎ ((old : Bytes) × (old_path ≡ some old) × Concerns old p)
    → All (λ op. observes p op ≡ false) ops
    → Hidden p (run (mark_namespace_change now path old_path m) ops)
change_hides m now path old_path p ops about unobserved =
    Hidden-find p _
      (run-Out p _ ops unobserved (mark_namespace_change-hides p now path old_path m about))
