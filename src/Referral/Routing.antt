-- ===== src/Referral/Routing.antt =====
-- Which paths a referral routes, and where to.
use r9p.Base.{
  ◌≡◌, ◌≢◌, refl, sym, ap, ap₂, subst, ◌↔◌, length, length-append, ◌∙◌, inl, inr, true, false,
  Bool-cases, Option-cases, some, Bytes, List, [], ◌∷◌, ◌++◌, append-nil, All, beq, beq→eq,
  beq_refl, ◌==◌, ==_iff, ok, arith,
}
use r9p.Referral.{
  NamespaceReferral, strip_prefix, starts_with_slash, is_absolute_path, validate_absolute_path,
  validate, mounted_suffix, join_namespace_path, routed_path,
}
use r9p.Referral.Names.{
  IsName, IsSuffix, below, path_of, below-append, below_alone-IsSuffix, below_prefix, All-append,
  All-append_left,
}
use r9p.Referral.Canonical.{
  is_absolute_path-names, is_absolute_path-path_of, is_absolute_path-nonempty, below-ne-root,
}

pub strip_prefix-append : (p s : Bytes) → strip_prefix p (p ++ s) ≡ some s
unfolding strip_prefix
strip_prefix-append [] s = refl
strip_prefix-append (b ∷ p) s = ground (arith, strip_prefix-append p s)

pub strip_prefix_sound : (p path : Bytes) {s : Bytes} → strip_prefix p path ≡ some s → path ≡ p ++ s
unfolding strip_prefix
strip_prefix_sound [] path e = ground arith
strip_prefix_sound (b ∷ p) [] e = cc
strip_prefix_sound (b ∷ p) (c ∷ path) e = elim (Bool-cases (b == c)) [
  | inl same ↦
      ap₂ (λ x xs. x ∷ xs) (sym ((==_iff b c).0 same))
        (strip_prefix_sound p path (ground (arith, same, e)))
  | inr other ↦ absurd (ground (arith, other, e))
]

mounted_suffix_sound :
    (path mount : Bytes) {s : Bytes}
    → mounted_suffix path mount ≡ some s
    → (path ≡ mount ++ s) × IsSuffix s
unfolding mounted_suffix
mounted_suffix_sound path mount {s = s} e = elim (Bool-cases (beq path mount)) [
  | inl same ↦
      let empty : [] ≡ s = ground (arith, same, e) in
      (
        beq→eq path mount same ∙ sym (append-nil mount) ∙ ap (λ x. mount ++ x) empty,
        inl (sym empty),
      )
  | inr other ↦
      (strip_prefix_sound mount path (ground (arith, other, e)), inr (ground (arith, other, e)))
]

append_self : (xs s : Bytes) → xs ++ s ≡ xs → s ≡ []
append_self xs [] e = refl
append_self xs (b ∷ s) e = absurd (omega (arith, length-append xs (b ∷ s), ap length e))

slash_of :
    (mount s : Bytes) → beq (mount ++ s) mount ≡ false → IsSuffix s → starts_with_slash s ≡ true
slash_of mount s other (inr slash) = slash
slash_of mount s other (inl empty) = ground (
  arith,
  other,
  beq_refl mount,
  ap (λ x. beq (mount ++ x) mount) empty,
  ap (λ x. beq x mount) (append-nil mount),
)

mounted_suffix_lem : (mount s : Bytes) → IsSuffix s → mounted_suffix (mount ++ s) mount ≡ some s
unfolding mounted_suffix
mounted_suffix_lem mount s h = elim (Bool-cases (beq (mount ++ s) mount)) [
  | inl same ↦
      rw (same, mounted_suffix)
        (ap some (sym (append_self mount s (beq→eq (mount ++ s) mount same))))
  | inr other ↦
      rw (other, strip_prefix-append mount s, slash_of mount s other h, mounted_suffix) refl
]

join_namespace_path_lem :
    (exported rest : List Bytes)
    → All IsName exported
    → All IsName rest
    → join_namespace_path (path_of exported) (below rest) ≡ path_of (exported ++ rest)
unfolding join_namespace_path beq
join_namespace_path_lem [] [] h k = refl
join_namespace_path_lem [] (name ∷ rest) h k = refl
join_namespace_path_lem (name ∷ exported) [] h k =
    rw (below-ne-root name exported h.0.0) (ap below (sym (append-nil (name ∷ exported))))
join_namespace_path_lem (name ∷ exported) (first ∷ rest) h k =
    rw (below-ne-root name exported h.0.0) (sym (below-append (name ∷ exported) (first ∷ rest)))

-- The path goes on behind the mount point by some names, and the target by the same names behind the
-- exported root.
abbrev pub IsRouted : NamespaceReferral → Bytes → Bytes → Type 0
IsRouted r path target =
    (mount exported rest : List Bytes) × (All IsName mount × All IsName exported × All IsName rest)
    × (r.mount_path ≡ path_of mount)
    × (r.exported_root ≡ path_of exported)
    × (path ≡ path_of (mount ++ rest))
    × (target ≡ path_of (exported ++ rest))

-- The names of what a valid referral mounts and exports.
abbrev Places : NamespaceReferral → Type 0
Places r =
    (mount exported : List Bytes) × All IsName mount
    × All IsName exported
    × (r.mount_path ≡ path_of mount)
    × (r.exported_root ≡ path_of exported)
    × (r.mount_path ≢ path_of [])

validate_absolute :
    (r : NamespaceReferral)
    → validate r ≡ ok tt
    → (is_absolute_path r.mount_path false ≡ true) × (is_absolute_path r.exported_root true ≡ true)
unfolding validate validate_absolute_path
validate_absolute r valid = elim (Bool-cases (is_absolute_path r.mount_path false)) [
  | inr bad ↦ absurd (ground (arith, bad, valid))
  | inl mounted ↦ elim (Bool-cases (is_absolute_path r.exported_root true)) [
    | inr bad ↦ absurd (ground (arith, mounted, bad, valid))
    | inl exported ↦ (mounted, exported)
  ]
]

validate-Places : (r : NamespaceReferral) → validate r ≡ ok tt → Places r
validate-Places r valid =
    let (mounted, exports) = validate_absolute r valid in
    let (canonical, apart) = is_absolute_path-nonempty r.mount_path mounted in
    let (mount, mount_names, mount_is) = is_absolute_path-names r.mount_path canonical in
    let (exported, exported_names, exported_is) = is_absolute_path-names r.exported_root exports in
    (mount, exported, mount_names, exported_names, mount_is, exported_is, apart)

-- A path behind a mount point goes on by names.
suffix_names :
    (mount names : List Bytes) (s : Bytes)
    → All IsName mount
    → All IsName names
    → IsSuffix s
    → path_of mount ≢ path_of []
    → path_of names ≡ path_of mount ++ s
    → (rest : List Bytes) × (names ≡ mount ++ rest) × (s ≡ below rest)
suffix_names [] names s hm hn hs apart e = absurd (apart refl)
suffix_names (m ∷ mount) (n ∷ names) s hm hn hs apart e =
    below_prefix (m ∷ mount) (n ∷ names) s hm hn hs e
suffix_names ([] ∷ mount) [] s hm hn hs apart e = absurd (hm.0.0 refl)
suffix_names ((b ∷ m) ∷ mount) [] s hm hn hs apart e = absurd (omega (arith, ap length e))

-- What `routed_path` does when it succeeds.
routed_path_inv :
    (lossy : Bytes → Bytes) (r : NamespaceReferral) (path target : Bytes)
    → routed_path lossy r path ≡ ok target
    → (is_absolute_path path true ≡ true)
      × ((s : Bytes) × (path ≡ r.mount_path ++ s)
          × IsSuffix s
          × (target ≡ join_namespace_path r.exported_root s))
unfolding routed_path validate_absolute_path
routed_path_inv lossy r path target e = elim (Bool-cases (is_absolute_path path true)) [
  | inr bad ↦ absurd (ground (arith, bad, e))
  | inl canonical ↦ elim (Option-cases (mounted_suffix path r.mount_path)) [
    | inl outside ↦ absurd (ground (arith, canonical, outside, e))
    | inr (s, found) ↦
        let (shape, suffix) = mounted_suffix_sound path r.mount_path found in
        (canonical, (s, shape, suffix, ground (arith, canonical, found, e)))
  ]
]

routed_path_sound :
    (lossy : Bytes → Bytes) (r : NamespaceReferral) (path target : Bytes)
    → validate r ≡ ok tt
    → routed_path lossy r path ≡ ok target
    → IsRouted r path target
routed_path_sound lossy r path target valid e =
    let (mount, exported, hm, he, mount_is, exported_is, apart) = validate-Places r valid in
    let (canonical, (s, shape, suffix, result)) = routed_path_inv lossy r path target e in
    let (names, hn, path_is) = is_absolute_path-names path canonical in
    let (rest, names_are, s_is) =
      suffix_names mount names s hm hn suffix (λ same. apart (mount_is ∙ same))
        (sym path_is ∙ shape ∙ ap (λ t. t ++ s) mount_is) in
    let hr = (All-append_left IsName mount rest (subst (All IsName) names_are hn)).1 in
    (
      mount,
      exported,
      rest,
      (hm, he, hr),
      mount_is,
      exported_is,
      path_is ∙ ap path_of names_are,
      result
          ∙ ap₂ join_namespace_path exported_is s_is
          ∙ join_namespace_path_lem exported rest he hr,
    )

path_of-append :
    (mount rest : List Bytes)
    → path_of mount ≢ path_of []
    → path_of (mount ++ rest) ≡ path_of mount ++ below rest
path_of-append [] rest apart = absurd (apart refl)
path_of-append (m ∷ mount) rest apart = below-append (m ∷ mount) rest

routed_path_complete :
    (lossy : Bytes → Bytes) (r : NamespaceReferral) (path target : Bytes)
    → validate r ≡ ok tt
    → IsRouted r path target
    → routed_path lossy r path ≡ ok target
unfolding routed_path validate_absolute_path
routed_path_complete lossy r path target valid
      (mount, exported, rest, (hm, he, hr), mount_is, exported_is, path_is, target_is) =
    let apart = (validate-Places r valid).6 in
    let canonical : is_absolute_path path true ≡ true =
      rw path_is (is_absolute_path-path_of (mount ++ rest) (All-append IsName mount rest hm hr)) in
    let shape : path ≡ r.mount_path ++ below rest =
      path_is
      ∙ path_of-append mount rest (λ same. apart (mount_is ∙ same))
      ∙ ap (λ t. t ++ below rest) (sym mount_is) in
    let found : mounted_suffix path r.mount_path ≡ some (below rest) =
      subst (λ x. mounted_suffix x r.mount_path ≡ some (below rest)) (sym shape)
        (mounted_suffix_lem r.mount_path (below rest) (below_alone-IsSuffix rest)) in
    rw (canonical, found)
      (ap ok (
        ap (λ t. join_namespace_path t (below rest)) exported_is
        ∙ join_namespace_path_lem exported rest he hr
        ∙ sym target_is))

-- A valid referral routes exactly the paths that go on behind its mount point by canonical names, and
-- the target goes on behind the exported root by the same names.
pub routed_path_iff :
    (lossy : Bytes → Bytes) (r : NamespaceReferral) (path target : Bytes)
    → validate r ≡ ok tt
    → (routed_path lossy r path ≡ ok target) ↔ IsRouted r path target
routed_path_iff lossy r path target valid =
    (routed_path_sound lossy r path target valid, routed_path_complete lossy r path target valid)
