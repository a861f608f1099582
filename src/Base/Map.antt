-- ===== src/Base/Map.antt =====
-- A `BTreeMap` with numbers for keys, as an association list. No operation of the source depends on
-- the order of the entries.
use Prim.Native.Nat.{ℕ, ◌+◌, ◌≤◌}
use mathlib.Core.Path.{◌≡◌, refl, subst₂}
use mathlib.Core.Bool.{Bool, true, false}
use mathlib.Core.List.{List, [], ◌∷◌}
use mathlib.Core.Option.{Option, none, some}
use native.Mathlib.Omega.{arith}
use mathlib.Core.Logic.{inl, inr}
use r9p.Base.Tests.{◌==◌, if◌then◌else◌, Bool-cases, ==_iff}
use r9p.Base.Lists.{length, All}

abbrev pub Map {ℓ} : Type ℓ → Type ℓ
Map V = List (ℕ × V)

module _ {ℓ} {V : Type ℓ} where
  unfoldable pub lookup : ℕ → Map V → Option V
  lookup k [] = none
  lookup k ((j, v) ∷ m) = if j == k then some v else lookup k m

  abbrev pub contains_key : ℕ → Map V → Bool
  contains_key k m = elim (lookup k m) [ none ↦ false | some v ↦ true ]

  unfoldable pub insert : ℕ → V → Map V → Map V
  insert key new [] = (key, new) ∷ []
  insert key new ((j, old) ∷ m) =
      let rest = insert key new m in if j == key then (key, new) ∷ m else (j, old) ∷ rest

  unfoldable pub remove : ℕ → Map V → Map V
  remove k [] = []
  remove k ((j, w) ∷ m) = let rest = remove k m in if j == k then rest else (j, w) ∷ rest

  pub lookup-insert :
      (key other : ℕ) (new : V) (m : Map V)
      → lookup other (insert key new m) ≡ (if key == other then some new else lookup other m)
  unfolding insert lookup
  lookup-insert key other new [] = refl
  lookup-insert key other new (entry ∷ m) = ground (arith, lookup-insert key other new m)

  pub lookup-remove :
      (k j : ℕ) (m : Map V) → lookup j (remove k m) ≡ (if k == j then none else lookup j m)
  unfolding lookup remove
  lookup-remove k j [] = ground arith
  lookup-remove k j ((i, w) ∷ m) = ground (arith, lookup-remove k j m)

  pub length-insert :
      (k : ℕ) (v : V) (m : Map V)
      → length (insert k v m) ≡ (if contains_key k m then length m else length m + 1)
  unfolding lookup insert
  length-insert k v [] = refl
  length-insert k v ((i, w) ∷ m) = ground (arith, length-insert k v m)

  pub length-remove : (k : ℕ) (m : Map V) → length (remove k m) ≤ length m
  unfolding remove
  length-remove k [] = omega arith
  length-remove k ((i, w) ∷ m) = ground (arith, length-remove k m)

  -- A predicate of every entry survives a removal, and an insertion of an entry that has it.
  pub All-remove {κ} : (P : ℕ × V → Type κ) (k : ℕ) (m : Map V) → All P m → All P (remove k m)
  unfolding remove
  All-remove P k [] h = h
  All-remove P k ((i, w) ∷ m) h = elim (Bool-cases (i == k)) [
    | inl same ↦ rw (same, remove) (All-remove P k m h.1)
    | inr other ↦ rw (other, remove) (h.0, All-remove P k m h.1)
  ]

  pub All-insert {κ} :
      (P : ℕ × V → Type κ) (k : ℕ) (v : V) (m : Map V) → All P m → P (k, v) → All P (insert k v m)
  unfolding insert
  All-insert P k v [] h p = (p, tt)
  All-insert P k v ((i, w) ∷ m) h p = elim (Bool-cases (i == k)) [
    | inl same ↦ rw (same, insert) (p, h.1)
    | inr other ↦ rw (other, insert) (h.0, All-insert P k v m h.1 p)
  ]

  pub All-lookup {κ} :
      (P : ℕ × V → Type κ) (k : ℕ) (m : Map V) {v : V} → All P m → lookup k m ≡ some v → P (k, v)
  unfolding lookup
  All-lookup P k [] h e = cc
  All-lookup P k ((i, w) ∷ m) {v = v} h e = elim (Bool-cases (i == k)) [
    | inl same ↦ subst₂ (λ x y. P (x, y)) ((==_iff i k).0 same) (ground arith) h.0
    | inr other ↦ All-lookup P k m h.1 (ground arith)
  ]

  -- No key has two entries.
  abbrev pub Distinct : Map V → Type ℓ
  Distinct [] = Unit {ℓ}
  Distinct ((k, v) ∷ m) = (lookup k m ≡ none) × Distinct m

  pub Distinct-insert : (k : ℕ) (v : V) (m : Map V) → Distinct m → Distinct (insert k v m)
  unfolding insert
  Distinct-insert k v [] h = (unfold lookup in refl, tt)
  Distinct-insert k v ((i, w) ∷ m) h = elim (Bool-cases (i == k)) [
    | inl same ↦ rw (same, insert) (rw ((==_iff i k).0 same) at h.0, h.1)
    | inr other ↦
        rw (other, insert) (ground (arith, lookup-insert k i v m, h.0), Distinct-insert k v m h.1)
  ]
