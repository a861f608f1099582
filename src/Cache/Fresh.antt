-- ===== src/Cache/Fresh.antt =====
-- The cache after any operations: a listing is served only for a path whose stat is served and is a
-- directory's.
use r9p.Base.{
  ℕ, ◌≡◌, refl, sym, ap, subst, ◌∙◌, Bool, true, false, not, ◌&&◌, ◌||◌, Bool-cases, Option-cases,
  inl, inr, if◌then◌else◌, beq, Bytes, bytes, List, [], ◌∷◌, ◌++◌, Option, none, some, arith,
}
use r9p.Base.Text.{path_eq}
use r9p.Stat.{Stat}
use r9p.Cache.Keyed.{
  FilePath, find, update, adjust, each, changed, find-update, find-adjust, find-each,
}
use r9p.Cache.{
  StaleReason, is_stale, DirEntry, DirCache, CachedNode, Nodes, is_dir, stat_if_fresh,
  directory_if_fresh, set_stat, update_stat, seed_child_stats, set_listing, update_directory,
  drop_listing, stale_node, parent_path, drop_parent_listing, path_is_prefix, mark_path_stale,
  mark_all_stale, parse_absolute_path, mark_changed, mark_namespace_change, fresh_directory,
}

-- The operations that change the cache, each with the reading of the clock.
pub data CacheOp : Type 0 where
  updates_stat : ℕ → FilePath → Stat → CacheOp
  updates_directory : ℕ → FilePath → List DirEntry → CacheOp
  changes : ℕ → Bytes → Option Bytes → CacheOp
  marks : ℕ → FilePath → StaleReason → CacheOp
  marks_all : ℕ → StaleReason → CacheOp

unfoldable pub apply : Nodes → CacheOp → Nodes
apply m (updates_stat now path new) = update_stat now path new m
apply m (updates_directory now path entries) = update_directory now path entries m
apply m (changes now path old_path) = mark_namespace_change now path old_path m
apply m (marks now path reason) = mark_path_stale now path reason m
apply m (marks_all now reason) = mark_all_stale now reason m

unfoldable pub run : Nodes → List CacheOp → Nodes
run m [] = m
run m (op ∷ ops) = run (apply m op) ops

-- A listing stands only in a fresh node of a directory, and is fresh.
pub record IsNode (node : CachedNode) : Type 0 where
  pub listed :
      (cache : DirCache)
      → node.dir_cache ≡ some cache
      → (is_dir node.stat ≡ true)
        × (is_stale node.stat_freshness ≡ false)
        × (is_stale cache.freshness ≡ false)

pub record IsCoherent (m : Nodes) : Type 0 where
  pub nodes : (p : FilePath) (node : CachedNode) → find p m ≡ some node → IsNode node

set_stat_new : (now : ℕ) (new : Stat) → IsNode (set_stat now new none)
unfolding set_stat
set_stat_new now new = record { listed = λ cache e. cc }

set_stat_old :
    (now : ℕ) (new : Stat) (node : CachedNode) → IsNode node → IsNode (set_stat now new (some node))
unfolding set_stat is_stale
set_stat_old now new node h = record { listed = λ cache e. ground (arith, h.listed cache) }

set_listing-IsNode :
    (now : ℕ) (entries : List DirEntry) (node : CachedNode)
    → is_dir node.stat ≡ true
    → is_stale node.stat_freshness ≡ false
    → IsNode (set_listing now entries node)
unfolding is_stale
set_listing-IsNode now entries node d f = record { listed = λ cache e. ground arith }

no_listing : (node : CachedNode) → node.dir_cache ≡ none → IsNode node
no_listing node e = record { listed = λ cache f. cc }

update-IsCoherent :
    (now : ℕ) (path : FilePath) (new : Stat) (m : Nodes)
    → IsCoherent m
    → IsCoherent (update path (set_stat now new) m)
update-IsCoherent now path new m h = record {
  nodes = λ p node e. at_path p node (sym (find-update path p (set_stat now new) m) ∙ e);
}
  where
    stated : IsNode (set_stat now new (find path m))
    stated = elim (Option-cases (find path m)) [
      | inl missing ↦ rw missing (set_stat_new now new)
      | inr (old, found) ↦ rw found (set_stat_old now new old (h.nodes path old found))
    ]

    at_path :
        (p : FilePath) (node : CachedNode)
        → (if path_eq path p then some (set_stat now new (find path m)) else find p m) ≡ some node
        → IsNode node
    at_path p node e = elim (Bool-cases (path_eq path p)) [
      | inl here ↦ subst IsNode (ground arith) stated
      | inr there ↦ h.nodes p node (rw there at e)
    ]

changed-IsNode :
    (g : CachedNode → CachedNode) (o : Option CachedNode) (node : CachedNode)
    → ((old : CachedNode) → o ≡ some old → IsNode (g old))
    → changed g o ≡ some node
    → IsNode node
changed-IsNode g none node h e = cc
changed-IsNode g (some old) node h e = subst IsNode (ground arith) (h old refl)

each-IsCoherent :
    (f : FilePath → CachedNode → CachedNode) (m : Nodes)
    → ((p : FilePath) (node : CachedNode) → IsNode node → IsNode (f p node))
    → IsCoherent m
    → IsCoherent (each f m)
each-IsCoherent f m keep h = record {
  nodes = λ p node e.
      changed-IsNode (f p) (find p m) node (λ old found. keep p old (h.nodes p old found))
        (sym (find-each p f m) ∙ e);
}

adjust-IsCoherent :
    (path : FilePath) (g : CachedNode → CachedNode) (m : Nodes)
    → ((old : CachedNode) → find path m ≡ some old → IsNode (g old))
    → IsCoherent m
    → IsCoherent (adjust path g m)
adjust-IsCoherent path g m made h = record {
  nodes = λ p node e. at_path p node (sym (find-adjust path p g m) ∙ e);
}
  where
    at_path :
        (p : FilePath) (node : CachedNode)
        → (if path_eq path p then changed g (find p m) else find p m) ≡ some node
        → IsNode node
    at_path p node e = elim (Bool-cases (path_eq path p)) [
      | inl here ↦
          changed-IsNode g (find p m) node
            (λ old found.
              made old (ap (λ q. find q m) (r9p.Base.Text.path_eq→eq path p here) ∙ found))
            (rw here at e)
      | inr there ↦ h.nodes p node (rw there at e)
    ]

seed-IsCoherent :
    (now : ℕ) (parent : FilePath) (entries : List DirEntry) (m : Nodes)
    → IsCoherent m
    → IsCoherent (seed_child_stats now parent entries m)
unfolding seed_child_stats
seed-IsCoherent now parent [] m h = h
seed-IsCoherent now parent (child ∷ entries) m h =
    seed-IsCoherent now parent entries _
      (elim (Bool-cases (beq child.name (bytes ".") || beq child.name (bytes ".."))) [
        | inl dots ↦ rw dots h
        | inr named ↦ rw named (update-IsCoherent now (parent ++ (child.name ∷ [])) child.stat m h)
      ])

update_directory-IsCoherent :
    (now : ℕ) (path : FilePath) (entries : List DirEntry) (m : Nodes)
    → IsCoherent m
    → IsCoherent (update_directory now path entries m)
unfolding update_directory
update_directory-IsCoherent now path entries m h = elim (Option-cases (find path m)) [
  | inl missing ↦ rw (missing, update_directory) h
  | inr (node, found) ↦ elim (Bool-cases (is_dir node.stat && not (is_stale node.stat_freshness))) [
    | inr skipped ↦ rw (found, skipped, update_directory) h
    | inl good ↦
        rw (found, good, update_directory)
          (seed-IsCoherent now path entries _ (
            adjust-IsCoherent path (set_listing now entries) m
              (λ old same.
                let this : node ≡ old = ground arith in
                subst (λ n. IsNode (set_listing now entries n)) this
                  (set_listing-IsNode now entries node (ground arith) (ground arith)))
              h))
  ]
]

mark_path_stale-IsCoherent :
    (now : ℕ) (path : FilePath) (reason : StaleReason) (m : Nodes)
    → IsCoherent m
    → IsCoherent (mark_path_stale now path reason m)
unfolding mark_path_stale
mark_path_stale-IsCoherent now path reason m h =
    each-IsCoherent _ _ (λ p node k. marked p node k (path_is_prefix path p) refl)
      (dropped (parent_path path))
  where
    marked :
        (p : FilePath) (node : CachedNode)
        → IsNode node
        → (b : Bool) → path_is_prefix path p ≡ b
        → IsNode (if b then stale_node now reason node else node)
    marked p node k true e = no_listing _ refl
    marked p node k false e = k

    dropped : (parent : Option FilePath) → IsCoherent (drop_parent_listing parent m)
    dropped none = h
    dropped (some parent) = adjust-IsCoherent parent drop_listing m (λ old _. no_listing _ refl) h

mark_all_stale-IsCoherent :
    (now : ℕ) (reason : StaleReason) (m : Nodes)
    → IsCoherent m
    → IsCoherent (mark_all_stale now reason m)
unfolding mark_all_stale
mark_all_stale-IsCoherent now reason m h = each-IsCoherent _ m (λ p node k. no_listing _ refl) h

mark_changed-IsCoherent :
    (now : ℕ) (field path : Bytes) (m : Nodes)
    → IsCoherent m
    → IsCoherent (mark_changed now field path m)
unfolding mark_changed
mark_changed-IsCoherent now field path m h = elim (Option-cases (parse_absolute_path path)) [
  | inl invalid ↦ rw (invalid, mark_changed) (mark_all_stale-IsCoherent now _ m h)
  | inr (segments, parsed) ↦
      rw (parsed, mark_changed) (mark_path_stale-IsCoherent now segments _ m h)
]

apply-IsCoherent : (m : Nodes) (op : CacheOp) → IsCoherent m → IsCoherent (apply m op)
unfolding apply update_stat mark_namespace_change
apply-IsCoherent m (updates_stat now path new) h = update-IsCoherent now path new m h
apply-IsCoherent m (updates_directory now path entries) h =
    update_directory-IsCoherent now path entries m h
apply-IsCoherent m (changes now path none) h = mark_changed-IsCoherent now _ path m h
apply-IsCoherent m (changes now path (some old_path)) h =
    mark_changed-IsCoherent now _ old_path _ (mark_changed-IsCoherent now _ path m h)
apply-IsCoherent m (marks now path reason) h = mark_path_stale-IsCoherent now path reason m h
apply-IsCoherent m (marks_all now reason) h = mark_all_stale-IsCoherent now reason m h

run_any-IsCoherent : (m : Nodes) (ops : List CacheOp) → IsCoherent m → IsCoherent (run m ops)
unfolding run
run_any-IsCoherent m [] h = h
run_any-IsCoherent m (op ∷ ops) h = run_any-IsCoherent (apply m op) ops (apply-IsCoherent m op h)

listing_lem :
    (o : Option CachedNode) (entries : List DirEntry)
    → fresh_directory o ≡ some entries
    → (node : CachedNode) × (cache : DirCache) × (o ≡ some node) × (node.dir_cache ≡ some cache)
listing_lem none entries e = cc
listing_lem (some node) entries e = elim (Option-cases node.dir_cache) [
  | inr (cache, listed) ↦ (node, cache, refl, listed)
  | inl unlisted ↦ absurd (ground arith)
]

-- After any operations on a new cache, a path whose listing is served has a stat that is served too, and it
-- is a directory's.
pub run_listing :
    (ops : List CacheOp) (path : FilePath) (entries : List DirEntry)
    → directory_if_fresh path (run [] ops) ≡ some entries
    → (s : Stat) × (stat_if_fresh path (run [] ops) ≡ some s) × (is_dir s ≡ true)
unfolding directory_if_fresh stat_if_fresh
run_listing ops path entries e =
    let coherent = run_any-IsCoherent [] ops (record { nodes = λ p node f. unfold find in cc }) in
    let (node, cache, found, listed) = listing_lem (find path (run [] ops)) entries e in
    let (directory, fresh, _) = (coherent.nodes path node found).listed cache listed in
    (node.stat, rw (found, fresh) refl, directory)
