-- ===== src/Base/Text.antt =====
-- Texts cut at a separator, and paths as lists of names.

use mathlib.Core.Path.{◌≡◌, refl, subst}
use mathlib.Core.Logic.{◌↔◌}
use mathlib.Core.Bool.{Bool, true, false, ◌&&◌}
use mathlib.Core.List.{List, [], ◌∷◌, ◌++◌}
use native.Mathlib.Omega.{arith}
use r9p.Base.Tests.{◌==◌, if◌then◌else◌, beq, beq→eq, beq_refl}
use r9p.Base.Errors.{Bytes}

-- `path.split('/')`, with what has been read of the current part.
unfoldable pub split_from : Bytes → Bytes → List Bytes
split_from part [] = part ∷ []
split_from part (b ∷ rest) =
    let later = split_from [] rest in
    let longer = split_from (part ++ (b ∷ [])) rest in if b == b'/' then part ∷ later else longer

-- Equality of paths.
unfoldable pub path_eq : List Bytes → List Bytes → Bool
path_eq [] [] = true
path_eq [] (y ∷ ys) = false
path_eq (x ∷ xs) [] = false
path_eq (x ∷ xs) (y ∷ ys) = beq x y && path_eq xs ys

pub path_eq→eq : (xs ys : List Bytes) → path_eq xs ys ≡ true → xs ≡ ys
unfolding path_eq
path_eq→eq [] [] h = refl
path_eq→eq [] (y ∷ ys) h = cc
path_eq→eq (x ∷ xs) [] h = cc
path_eq→eq (x ∷ xs) (y ∷ ys) h = ground (arith, beq→eq x y, path_eq→eq xs ys)

pub path_eq_refl : (xs : List Bytes) → path_eq xs xs ≡ true
unfolding path_eq
path_eq_refl [] = refl
path_eq_refl (x ∷ xs) = ground (arith, beq_refl x, path_eq_refl xs)

pub path_eq_iff : (xs ys : List Bytes) → (path_eq xs ys ≡ true) ↔ (xs ≡ ys)
path_eq_iff xs ys = (path_eq→eq xs ys, λ e. subst (λ zs. path_eq xs zs ≡ true) e (path_eq_refl xs))
