-- ===== src/Tests/Cache.antt =====
-- The namespace cache: a listing of the root, and a change below it.
use r9p.Base.{inr, ◌≡◌, refl, inl, true, bytes, beq, List, [], ◌∷◌, none, some}
use r9p.Base.Text.{split_from, path_eq}
use r9p.Stat.{Stat}
use r9p.Cache.Keyed.{FilePath, find, update, adjust}
use r9p.Cache.{
  DirEntry, is_stale, is_dir, stat_if_fresh, directory_if_fresh, set_stat, update_stat,
  update_directory, seed_child_stats, parse_absolute_path, mark_namespace_change,
}
use r9p.Cache.Fresh.{CacheOp, updates_stat, updates_directory, apply, run, run_listing}
use r9p.Cache.Stale.{Hidden, change_hides}

abbrev directory_stat : Stat
directory_stat = record {
  kind = 0;
  dev = 0;
  qid = record { qtype = 0x80; version = 0; path = 1 };
  mode = 0x8000_0000;
  atime = 0;
  mtime = 0;
  length = 0;
  name = b'/' ∷ [];
  uid = [];
  gid = [];
  muid = [];
}

abbrev file_stat : Stat
file_stat = record directory_stat {
  qid = record { qtype = 0; version = 0; path = 2 };
  mode = 420;
  name = b'a' ∷ [];
}

abbrev listing : List DirEntry
listing = record { name = b'a' ∷ []; qid = file_stat.qid; stat = file_stat } ∷ []

abbrev observed : List CacheOp
observed = updates_stat 1 [] directory_stat ∷ updates_directory 2 [] listing ∷ []

listing_served : directory_if_fresh [] (run [] observed) ≡ some listing
unfolding directory_if_fresh run apply update_stat update_directory update adjust find set_stat
    seed_child_stats path_eq is_dir is_stale beq bytes
listing_served = refl

run_listing_example : (s : Stat) × (stat_if_fresh [] (run [] observed) ≡ some s) × (is_dir s ≡ true)
run_listing_example = run_listing observed [] listing listing_served

abbrev child : FilePath
child = (b'a' ∷ []) ∷ []

-- The child changes, and then the root is observed again.
change_hides_example : Hidden child (
    run
      (mark_namespace_change 3 (b'/' ∷ b'a' ∷ []) none (run [] observed))
      (updates_stat 4 [] directory_stat ∷ []))
unfolding parse_absolute_path split_from beq path_eq
change_hides_example =
    change_hides (run [] observed) 3 (b'/' ∷ b'a' ∷ []) none child
      (updates_stat 4 [] directory_stat ∷ []) (inl (inr (child, [], refl, refl))) (refl, tt)
