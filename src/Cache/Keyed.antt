-- ===== src/Cache/Keyed.antt =====
-- A `BTreeMap` with paths for keys, as an association list. No operation of the cache depends on the
-- order of the entries.
use r9p.Base.{◌≡◌, refl, if◌then◌else◌, Bytes, List, [], ◌∷◌, Option, none, some, arith}
use r9p.Base.Text.{path_eq, path_eq_iff}

abbrev pub FilePath : Type 0
FilePath = List Bytes

abbrev pub Entries : Type 0 → Type 0
Entries V = List (FilePath × V)

module _ {V : Type 0} where
  unfoldable pub find : FilePath → Entries V → Option V
  find p [] = none
  find p ((q, v) ∷ m) = if path_eq q p then some v else find p m

  -- `entry(path)`, with what is made of the value or of its absence.
  unfoldable pub update : FilePath → (Option V → V) → Entries V → Entries V
  update p f [] = (p, f none) ∷ []
  update p f ((q, v) ∷ m) =
      let rest = update p f m in if path_eq q p then (q, f (some v)) ∷ m else (q, v) ∷ rest

  -- `get_mut(path)`.
  unfoldable pub adjust : FilePath → (V → V) → Entries V → Entries V
  adjust p f [] = []
  adjust p f ((q, v) ∷ m) =
      let rest = adjust p f m in if path_eq q p then (q, f v) ∷ m else (q, v) ∷ rest

  -- `iter_mut()`.
  unfoldable pub each : (FilePath → V → V) → Entries V → Entries V
  each f [] = []
  each f ((q, v) ∷ m) = (q, f q v) ∷ each f m

  abbrev pub changed : (V → V) → Option V → Option V
  changed f none = none
  changed f (some v) = some (f v)

  pub find-update :
      (p j : FilePath) (f : Option V → V) (m : Entries V)
      → find j (update p f m) ≡ (if path_eq p j then some (f (find p m)) else find j m)
  unfolding find update
  find-update p j f [] = refl
  find-update p j f ((q, v) ∷ m) =
      ground (arith, path_eq_iff p j, path_eq_iff q p, path_eq_iff q j, find-update p j f m)

  pub find-adjust :
      (p j : FilePath) (f : V → V) (m : Entries V)
      → find j (adjust p f m) ≡ (if path_eq p j then changed f (find j m) else find j m)
  unfolding find adjust
  find-adjust p j f [] = ground arith
  find-adjust p j f ((q, v) ∷ m) =
      ground (arith, path_eq_iff p j, path_eq_iff q p, path_eq_iff q j, find-adjust p j f m)

  pub find-each :
      (j : FilePath) (f : FilePath → V → V) (m : Entries V)
      → find j (each f m) ≡ changed (f j) (find j m)
  unfolding find each
  find-each j f [] = refl
  find-each j f ((q, v) ∷ m) = ground (arith, path_eq_iff q j, find-each j f m)
