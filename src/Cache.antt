-- ===== src/Cache.antt =====
-- crates/session/src/cache.rs: `NamespaceCache`, the cache of stats and of directory listings by path.
-- The guarded value stands for the mutex around it, and a poisoned mutex is left out. An operation
-- is given the reading of the clock, which it may take several times.
pub mod Keyed
pub mod Fresh
pub mod Stale
use r9p.Base.{
  ℕ, ◌-◌, Bool, true, false, not, ◌&&◌, ◌||◌, ◌==◌, leb, beq, if◌then◌else◌, bit_and, Bytes, bytes,
  List, [], ◌∷◌, ◌++◌, length, take, Option, none, some,
}
use r9p.Base.Text.{split_from}
use r9p.Qid.{Qid, qtdir, dmdir}
use r9p.Stat.{Stat}
use r9p.Cache.Keyed.{FilePath, Entries, find, update, adjust, each}

pub data StaleReason : Type 0 where
  reconnect namespace_change identity_change not_directory : StaleReason
  explicit : Bytes → StaleReason

pub record Freshness : Type 0 where
  pub observed_at : ℕ
  pub stale_reason : Option StaleReason

unfoldable pub is_stale : Freshness → Bool
is_stale f = elim f.stale_reason [ none ↦ false | some reason ↦ true ]

-- `fresh_now` and `mark_fresh`.
abbrev pub fresh_at : ℕ → Freshness
fresh_at now = record { observed_at = now; stale_reason = none }

-- `stale_now` and `mark_stale`.
abbrev pub stale_at : ℕ → StaleReason → Freshness
stale_at now reason = record { observed_at = now; stale_reason = some reason }

-- `saturating_duration_since` is the subtraction of ℕ.
unfoldable pub is_fresh_at : Freshness → ℕ → ℕ → Bool
unfolding is_stale
is_fresh_at f now ttl = not (ttl == 0) && not (is_stale f) && leb (now - f.observed_at) ttl

pub record DirEntry : Type 0 where
  pub name : Bytes
  pub qid : Qid
  pub stat : Stat

pub record DirCache : Type 0 where
  pub entries : List DirEntry
  pub freshness : Freshness

pub record CachedNode : Type 0 where
  pub stat : Stat
  pub stat_freshness : Freshness
  pub dir_cache : Option DirCache

abbrev pub Nodes : Type 0
Nodes = Entries CachedNode

unfoldable pub is_dir : Stat → Bool
is_dir s = not (bit_and s.qid.qtype qtdir == 0) || not (bit_and s.mode dmdir == 0)

unfoldable pub same_qid : Qid → Qid → Bool
same_qid a b = a.path == b.path && a.version == b.version && a.qtype == b.qtype

-- `Some(node)` with a fresh stat.
abbrev pub fresh_stat : Option CachedNode → Option Stat
fresh_stat none = none
fresh_stat (some node) = if is_stale node.stat_freshness then none else some node.stat

abbrev pub fresh_listing : Option DirCache → Option (List DirEntry)
fresh_listing none = none
fresh_listing (some cache) = if is_stale cache.freshness then none else some cache.entries

abbrev pub fresh_directory : Option CachedNode → Option (List DirEntry)
fresh_directory none = none
fresh_directory (some node) =
    if is_stale node.stat_freshness then none else fresh_listing node.dir_cache

unfoldable pub stat_if_fresh : FilePath → Nodes → Option Stat
stat_if_fresh path nodes = fresh_stat (find path nodes)

unfoldable pub directory_if_fresh : FilePath → Nodes → Option (List DirEntry)
directory_if_fresh path nodes = fresh_directory (find path nodes)

-- `entry(path).or_insert_with(..)` and what follows it, in `update_stat` and for a child.
unfoldable pub set_stat : ℕ → Stat → Option CachedNode → CachedNode
set_stat now new none = record { stat = new; stat_freshness = fresh_at now; dir_cache = none }
set_stat now new (some node) = record {
  stat = new;
  stat_freshness = fresh_at now;
  dir_cache =
      if not (same_qid node.stat.qid new.qid) || not (is_dir new) then none else node.dir_cache;
}

unfoldable pub update_stat : ℕ → FilePath → Stat → Nodes → Nodes
update_stat now path new nodes = update path (set_stat now new) nodes

unfoldable pub seed_child_stats : ℕ → FilePath → List DirEntry → Nodes → Nodes
unfolding bytes
seed_child_stats now parent [] nodes = nodes
seed_child_stats now parent (child ∷ entries) nodes = seed_child_stats now parent entries (
    if beq child.name (bytes ".") || beq child.name (bytes "..")
    then nodes
    else update (parent ++ (child.name ∷ [])) (set_stat now child.stat) nodes)

abbrev pub set_listing : ℕ → List DirEntry → CachedNode → CachedNode
set_listing now entries node = record node {
  dir_cache = some (record { entries = entries; freshness = fresh_at now });
}

unfoldable pub update_directory : ℕ → FilePath → List DirEntry → Nodes → Nodes
update_directory now path entries nodes = elim (find path nodes) [
  | none ↦ nodes
  | some node ↦
      if is_dir node.stat && not (is_stale node.stat_freshness)
      then seed_child_stats now path entries (adjust path (set_listing now entries) nodes)
      else nodes
]

unfoldable pub parent_path : FilePath → Option FilePath
parent_path path = if length path == 0 then none else some (take (length path - 1) path)

-- `path.iter().zip(prefix).all(|(path, prefix)| path == prefix)`.
unfoldable pub zip_agrees : FilePath → FilePath → Bool
zip_agrees [] prefix = true
zip_agrees (x ∷ path) [] = true
zip_agrees (x ∷ path) (y ∷ prefix) = beq x y && zip_agrees path prefix

unfoldable pub path_is_prefix : FilePath → FilePath → Bool
path_is_prefix prefix path = leb (length prefix) (length path) && zip_agrees path prefix

abbrev pub drop_listing : CachedNode → CachedNode
drop_listing node = record node { dir_cache = none }

abbrev pub stale_node : ℕ → StaleReason → CachedNode → CachedNode
stale_node now reason node = record node { stat_freshness = stale_at now reason; dir_cache = none }

abbrev pub drop_parent_listing : Option FilePath → Nodes → Nodes
drop_parent_listing none nodes = nodes
drop_parent_listing (some parent) nodes = adjust parent drop_listing nodes

unfoldable pub mark_path_stale : ℕ → FilePath → StaleReason → Nodes → Nodes
mark_path_stale now path reason nodes =
    each
      (λ entry_path node.
        if path_is_prefix path entry_path then stale_node now reason node else node)
      (drop_parent_listing (parent_path path) nodes)

unfoldable pub mark_all_stale : ℕ → StaleReason → Nodes → Nodes
mark_all_stale now reason nodes = each (λ _ node. stale_node now reason node) nodes

abbrev nonempty_segments : List Bytes → List Bytes
nonempty_segments [] = []
nonempty_segments (segment ∷ segments) =
    if length segment == 0 then nonempty_segments segments else segment ∷ nonempty_segments segments

unfoldable pub parse_absolute_path : Bytes → Option FilePath
parse_absolute_path [] = none
parse_absolute_path (b ∷ rest) =
    if b == b'/' then some (nonempty_segments (split_from [] (b ∷ rest))) else none

-- The change of one of the paths, its field's name in the message for one that is not absolute.
unfoldable pub mark_changed : ℕ → Bytes → Bytes → Nodes → Nodes
unfolding bytes
mark_changed now field path nodes = elim (parse_absolute_path path) [
  | some segments ↦ mark_path_stale now segments namespace_change nodes
  | none ↦
      mark_all_stale now
        (explicit (bytes "invalid namespace change " ++ (field ++ (bytes " " ++ path)))) nodes
]

unfoldable pub mark_namespace_change : ℕ → Bytes → Option Bytes → Nodes → Nodes
unfolding bytes
mark_namespace_change now path none nodes = mark_changed now (bytes "path") path nodes
mark_namespace_change now path (some old_path) nodes =
    mark_changed now (bytes "old_path") old_path (mark_changed now (bytes "path") path nodes)
