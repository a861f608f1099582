-- ===== src/Referral/Canonical.antt =====
-- `is_absolute_path` accepts exactly the paths of lists of names.
use r9p.Base.{
  ℕ, ◌≡◌, ◌≢◌, refl, sym, ap, ◌∙◌, inl, inr, true, false, Bool-cases, Bytes, List, [], ◌∷◌, ◌++◌,
  All, all, any, beq, beq→eq, beq_refl, ◌==◌, ==_iff, arith,
}
use r9p.Referral.{
  slash, root, is_control, starts_with_slash, ends_with_slash, split_slash, extend_first,
  is_segment, is_absolute_path,
}
use r9p.Referral.Names.{IsNameByte, IsName, below, path_of}

below-extend_first :
    (b : ℕ) (segments : List Bytes) (path : Bytes)
    → below segments ≡ slash ∷ path
    → below (extend_first b segments) ≡ slash ∷ b ∷ path
below-extend_first b [] path e = absurd (cc)
below-extend_first b (segment ∷ segments) path e =
    let tails : segment ++ below segments ≡ path = cc in ap (λ t. slash ∷ b ∷ t) tails

-- The segments of a path, each behind a slash, are the path behind a slash.
below-split_slash : (path : Bytes) → below (split_slash path) ≡ slash ∷ path
unfolding split_slash
below-split_slash [] = refl
below-split_slash (b ∷ path) = elim (Bool-cases (b == slash)) [
  | inl same ↦ rw same (
      ap (λ t. slash ∷ t)
        (below-split_slash path ∙ ap (λ c. c ∷ path) (sym ((==_iff b slash).0 same))))
  | inr other ↦ rw other (below-extend_first b (split_slash path) path (below-split_slash path))
]

name_byte : (b : ℕ) → (b == slash) ≡ false → is_control b ≡ false → IsNameByte b
name_byte b h k = ground arith

All-extend_first :
    (b : ℕ) (segments : List Bytes)
    → IsNameByte b
    → All (All IsNameByte) segments
    → All (All IsNameByte) (extend_first b segments)
All-extend_first b [] h k = ((h, tt), tt)
All-extend_first b (segment ∷ segments) h k = ((h, k.0), k.1)

split_slash-bytes :
    (path : Bytes) → any is_control path ≡ false → All (All IsNameByte) (split_slash path)
unfolding split_slash
split_slash-bytes [] h = (tt, tt)
split_slash-bytes (b ∷ path) h =
    let rest = split_slash-bytes path (ground arith) in
    elim (Bool-cases (b == slash)) [
      | inl same ↦ rw same (tt, rest)
      | inr other ↦
          rw other (All-extend_first b (split_slash path) (name_byte b other (ground arith)) rest)
    ]

names_of :
    (segments : List Bytes)
    → all is_segment segments ≡ true
    → All (All IsNameByte) segments
    → All IsName segments
unfolding is_segment
names_of [] h k = tt
names_of (segment ∷ segments) h k = (
  (
    λ e. absurd (ground (arith, h, ap (λ t. beq t []) e)),
    λ e. absurd (ground (arith, h, ap (λ t. beq t (b'.' ∷ [])) e)),
    λ e. absurd (ground (arith, h, ap (λ t. beq t (b'.' ∷ b'.' ∷ [])) e)),
    k.0,
  ),
  names_of segments (ground arith) k.1,
)

path_of-below :
    (names : List Bytes) (b : ℕ) (path : Bytes)
    → below names ≡ b ∷ path
    → path_of names ≡ below names
path_of-below [] b path e = absurd (ground (arith, e))
path_of-below (name ∷ names) b path e = refl

-- A canonical path is the path of some names.
pub is_absolute_path-names :
    (path : Bytes)
    → is_absolute_path path true ≡ true
    → (names : List Bytes) × All IsName names × (path ≡ path_of names)
unfolding is_absolute_path starts_with_slash split_slash beq
is_absolute_path-names [] h = absurd (ground (arith, h))
is_absolute_path-names (b ∷ path) h = elim (Bool-cases (beq (b ∷ path) root)) [
  | inl same ↦ ([], tt, beq→eq (b ∷ path) root same)
  | inr other ↦
      let first : (b == slash) ≡ true = ground (arith, h, other) in
      let joined = below-split_slash path in
      (
        split_slash path,
        names_of (split_slash path) (ground (arith, h, other, first))
            (split_slash-bytes path (ground (arith, h, other, first))),
        ap (λ c. c ∷ path) ((==_iff b slash).0 first)
            ∙ sym joined
            ∙ sym (path_of-below (split_slash path) slash path joined),
      )
]

split_slash-below :
    (name : Bytes) (names : List Bytes)
    → All IsNameByte name
    → All IsName names
    → split_slash (name ++ below names) ≡ name ∷ names
unfolding split_slash
split_slash-below [] [] h k = refl
split_slash-below [] (m ∷ names) h k = ap (λ t. [] ∷ t) (split_slash-below m names k.0.3 k.1)
split_slash-below (b ∷ name) names h k =
    let rest = split_slash-below name names h.1 k in
    let other : (b == slash) ≡ false = ground arith in rw other (rw rest refl)

ends_with_slash-below :
    (b : ℕ) (name : Bytes) (names : List Bytes)
    → All IsNameByte (b ∷ name)
    → All IsName names
    → ends_with_slash ((b ∷ name) ++ below names) ≡ false
unfolding ends_with_slash
ends_with_slash-below b [] [] h k = ground arith
ends_with_slash-below b [] ([] ∷ names) h k = absurd (k.0.0 refl)
ends_with_slash-below b [] ((c ∷ m) ∷ names) h k = ends_with_slash-below c m names k.0.3 k.1
ends_with_slash-below b (c ∷ name) names h k = ends_with_slash-below c name names h.1 k

any_control-append :
    (name rest : Bytes)
    → All IsNameByte name
    → any is_control rest ≡ false
    → any is_control (name ++ rest) ≡ false
any_control-append [] rest h e = e
any_control-append (b ∷ name) rest h e = ground (arith, any_control-append name rest)

any_control-below : (names : List Bytes) → All IsName names → any is_control (below names) ≡ false
any_control-below [] h = refl
any_control-below (name ∷ names) h =
    any_control-append name (below names) h.0.3 (any_control-below names h.1)

beq-ne : (xs ys : Bytes) → xs ≢ ys → beq xs ys ≡ false
beq-ne xs ys apart = elim (Bool-cases (beq xs ys)) [
  | inl same ↦ absurd (apart (beq→eq xs ys same))
  | inr other ↦ other
]

all_segments : (names : List Bytes) → All IsName names → all is_segment names ≡ true
unfolding is_segment
all_segments [] h = refl
all_segments (name ∷ names) h =
    rw (beq-ne name [] h.0.0, beq-ne name (b'.' ∷ []) h.0.1, beq-ne name (b'.' ∷ b'.' ∷ []) h.0.2)
      (all_segments names h.1)

pub below-ne-root :
    (name : Bytes) (names : List Bytes) → name ≢ [] → beq (below (name ∷ names)) root ≡ false
unfolding beq
below-ne-root [] names h = absurd (h refl)
below-ne-root (b ∷ name) names h = refl

-- The path of names is canonical.
pub is_absolute_path-path_of :
    (names : List Bytes) → All IsName names → is_absolute_path (path_of names) true ≡ true
unfolding is_absolute_path starts_with_slash split_slash
is_absolute_path-path_of [] h = rw (beq_refl root) refl
is_absolute_path-path_of ([] ∷ names) h = absurd (h.0.0 refl)
is_absolute_path-path_of ((b ∷ name) ∷ names) h = rw (below-ne-root (b ∷ name) names h.0.0) (
    ground (
      arith,
      ends_lem,
      split_slash-below (b ∷ name) names h.0.3 h.1,
      all_segments ((b ∷ name) ∷ names) h,
      any_control-below ((b ∷ name) ∷ names) h,
    ))
  where
    ends_lem : ends_with_slash (below ((b ∷ name) ∷ names)) ≡ false
    ends_lem = unfold ends_with_slash in ends_with_slash-below b name names h.0.3 h.1

-- The root is accepted only where it is allowed.
pub is_absolute_path-nonempty :
    (path : Bytes)
    → is_absolute_path path false ≡ true
    → (is_absolute_path path true ≡ true) × (path ≢ path_of [])
unfolding is_absolute_path beq
is_absolute_path-nonempty path h = elim (Bool-cases (beq path root)) [
  | inl same ↦ absurd (ground (arith, h, same))
  | inr other ↦
      (ground (arith, h, other), λ e. absurd (ground (arith, other, ap (λ t. beq t root) e)))
]
