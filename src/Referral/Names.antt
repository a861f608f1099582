-- ===== src/Referral/Names.antt =====
-- Canonical paths as the lists of their names, and what stands behind a prefix of one.
use r9p.Base.{
  ℕ, ◌≤◌, ◌≡◌, ◌≢◌, ◌⊎◌, refl, sym, ap, ap₂, ◌∙◌, inl, inr, true, Bytes, List, [], ◌∷◌, ◌++◌,
  append_assoc, All, arith,
}
use r9p.Referral.{starts_with_slash}

-- A byte that may stand in a name: no slash and no control byte.
abbrev pub IsNameByte : ℕ → Type 0
IsNameByte b = (32 ≤ b) × (b ≢ 127) × (b ≢ b'/')

-- One name of a canonical path: of such bytes, not empty, and neither "." nor "..".
abbrev pub IsName : Bytes → Type 0
IsName name = (name ≢ []) × (name ≢ b'.' ∷ []) × (name ≢ b'.' ∷ b'.' ∷ []) × All IsNameByte name

-- The names, each behind a slash.
abbrev pub below : List Bytes → Bytes
below [] = []
below (name ∷ names) = b'/' ∷ (name ++ below names)

-- The canonical path of the names: "/" where there is none.
abbrev pub path_of : List Bytes → Bytes
path_of [] = b'/' ∷ []
path_of (name ∷ names) = below (name ∷ names)

-- What may stand behind a mount point: nothing, or a slash and more.
abbrev pub IsSuffix : Bytes → Type 0
IsSuffix suffix = (suffix ≡ []) ⊎ (starts_with_slash suffix ≡ true)

below-IsSuffix : (names : List Bytes) (s : Bytes) → IsSuffix s → IsSuffix (below names ++ s)
unfolding starts_with_slash
below-IsSuffix [] s h = h
below-IsSuffix (name ∷ names) s h = inr refl

pub All-append {ℓ κ} :
    {A : Type ℓ} (P : A → Type κ) (xs ys : List A) → All P xs → All P ys → All P (xs ++ ys)
All-append P [] ys h k = k
All-append P (x ∷ xs) ys h k = (h.0, All-append P xs ys h.1 k)

pub All-append_left {ℓ κ} :
    {A : Type ℓ} (P : A → Type κ) (xs ys : List A) → All P (xs ++ ys) → All P xs × All P ys
All-append_left P [] ys h = (tt, h)
All-append_left P (x ∷ xs) ys h =
    let (front, back) = All-append_left P xs ys h.1 in ((h.0, front), back)

pub below_alone-IsSuffix : (names : List Bytes) → IsSuffix (below names)
unfolding starts_with_slash
below_alone-IsSuffix [] = inl refl
below_alone-IsSuffix (name ∷ names) = inr refl

-- A name ends at the first slash.
cut :
    (x y a b : Bytes)
    → All IsNameByte x
    → All IsNameByte y
    → IsSuffix a
    → IsSuffix b
    → x ++ a ≡ y ++ b
    → (x ≡ y) × (a ≡ b)
unfolding starts_with_slash
cut [] [] a b hx hy ha hb e = (refl, e)
cut [] (d ∷ y) [] b hx hy ha hb e = cc
cut [] (d ∷ y) (c ∷ a) b hx hy ha hb e = ground arith
cut (c ∷ x) [] a [] hx hy ha hb e = cc
cut (c ∷ x) [] a (d ∷ b) hx hy ha hb e = ground arith
cut (c ∷ x) (d ∷ y) a b hx hy ha hb e =
    let (same, rest) = cut x y a b hx.1 hy.1 ha hb (cc) in
    let first : c ≡ d = cc in (ap₂ (λ v vs. v ∷ vs) first same, rest)

pub below_prefix :
    (mount names : List Bytes) (s : Bytes)
    → All IsName mount
    → All IsName names
    → IsSuffix s
    → below names ≡ below mount ++ s
    → (rest : List Bytes) × (names ≡ mount ++ rest) × (s ≡ below rest)
below_prefix [] names s hm hn hs e = (names, refl, sym e)
below_prefix (m ∷ mount) [] s hm hn hs e = absurd (cc)
below_prefix (m ∷ mount) (n ∷ names) s hm hn hs e =
    let tails : n ++ below names ≡ (m ++ below mount) ++ s = cc in
    let (same, later) =
      cut n m (below names) (below mount ++ s) hn.0.3 hm.0.3 (below_alone-IsSuffix names)
        (below-IsSuffix mount s hs) (tails ∙ append_assoc m (below mount) s) in
    let (rest, found, suffix) = below_prefix mount names s hm.1 hn.1 hs later in
    (rest, ap₂ (λ v vs. v ∷ vs) same found, suffix)

pub below-append : (xs ys : List Bytes) → below (xs ++ ys) ≡ below xs ++ below ys
below-append [] ys = refl
below-append (x ∷ xs) ys =
    ap (λ t. b'/' ∷ t)
      (ap (λ t. x ++ t) (below-append xs ys) ∙ sym (append_assoc x (below xs) (below ys)))
