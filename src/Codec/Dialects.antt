-- ===== src/Codec/Dialects.antt =====
-- Which dialect the server agrees to: `accept` against a description of the version names.
use r9p.Base.{
  ◌≡◌, ◌≢◌, ◌⊎◌, refl, ap, subst, inl, inr, true, false, Bool-cases, none, some, Bytes, bytes, [],
  ◌∷◌, ◌++◌, beq, beq→eq, beq_refl, ◌&&◌, Option, ◌==◌, arith,
}
use r9p.Referral.{strip_prefix}
use r9p.Referral.Routing.{strip_prefix_sound}
use r9p.Codec.{Variant, is_r, wire_name, plain_request, accept}

-- The name of a dialect on the wire.
abbrev pub dialect : Variant → Bytes
dialect Variant.plain = bytes "9P2000"
dialect Variant.r = bytes "9P2000.R"

-- 9P2000 by its name, or by its name with a dot and an extension behind it.
abbrev pub IsPlainName : Bytes → Type 0
IsPlainName version =
    (version ≡ dialect Variant.plain)
    ⊎ ((extension : Bytes) × (version ≡ dialect Variant.plain ++ (b'.' ∷ extension)))

-- What a server that is configured for a dialect speaks with a client that asks for a version:
-- 9P2000.R where both name it, and else 9P2000 where the client names it.
abbrev pub Speaks : Variant → Bytes → Variant → Type 0
Speaks configured version Variant.r = (configured ≡ Variant.r) × (version ≡ dialect Variant.r)
Speaks configured version Variant.plain =
    ((configured ≡ Variant.plain) ⊎ (version ≢ dialect Variant.r)) × IsPlainName version

pub wire_name-dialect : (v : Variant) → wire_name v ≡ dialect v
unfolding wire_name
wire_name-dialect Variant.plain = refl
wire_name-dialect Variant.r = refl

plain_request_sound : (version : Bytes) → plain_request version ≡ true → IsPlainName version
unfolding plain_request
plain_request_sound version h = elim (Bool-cases (beq version (bytes "9P2000"))) [
  | inl same ↦ inl (beq→eq version (bytes "9P2000") same)
  | inr other ↦
      inr (extended (strip_prefix (bytes "9P2000") version) refl (ground (arith, h, other)))
]
  where
    extended :
        (o : Option Bytes)
        → strip_prefix (bytes "9P2000") version ≡ o
        → (elim o [ none ↦ false | some [] ↦ false | some (b ∷ suffix) ↦ b == b'.' ]) ≡ true
        → (extension : Bytes) × (version ≡ bytes "9P2000" ++ (b'.' ∷ extension))
    extended none e h = absurd (ground (arith, h))
    extended (some []) e h = absurd (ground (arith, h))
    extended (some (b ∷ suffix)) e h =
        (suffix, ground (arith, strip_prefix_sound (bytes "9P2000") version e, h))

plain_request_complete : (version : Bytes) → IsPlainName version → plain_request version ≡ true
unfolding plain_request
plain_request_complete version (inl same) = rw same refl
plain_request_complete version (inr (extension, same)) = rw same refl

is_r→eq : (v : Variant) → is_r v ≡ true → v ≡ Variant.r
unfolding is_r
is_r→eq Variant.plain h = cc
is_r→eq Variant.r h = refl

-- What decides for 9P2000.R.
not_r :
    (configured : Variant) (version : Bytes)
    → (is_r configured && beq version (dialect Variant.r)) ≡ false
    → (configured ≡ Variant.plain) ⊎ (version ≢ dialect Variant.r)
unfolding is_r
not_r Variant.plain version h = inl refl
not_r Variant.r version h =
    inr (λ e. absurd (ground (arith, h, ap (λ t. beq t (dialect Variant.r)) e, beq_refl version)))

not_r_complete :
    (configured : Variant) (version : Bytes)
    → (configured ≡ Variant.plain) ⊎ (version ≢ dialect Variant.r)
    → (is_r configured && beq version (dialect Variant.r)) ≡ false
unfolding is_r
not_r_complete Variant.plain version h = refl
not_r_complete Variant.r version (inl e) = absurd (ground (arith, e))
not_r_complete Variant.r version (inr apart) = elim (Bool-cases (beq version (dialect Variant.r))) [
  | inl same ↦ absurd (apart (beq→eq version (dialect Variant.r) same))
  | inr other ↦ other
]

pub accept_sound :
    (configured : Variant) (version : Bytes) (v : Variant)
    → accept configured version ≡ some v
    → Speaks configured version v
unfolding accept
accept_sound configured version v e =
    elim (Bool-cases (is_r configured && beq version (dialect Variant.r))) [
      | inl both ↦
          let same : Variant.r ≡ v = ground (arith, e, both) in
          subst (Speaks configured version) same (
            is_r→eq configured (ground (arith, both)),
            beq→eq version (dialect Variant.r) (ground (arith, both)),
          )
      | inr neither ↦ elim (Bool-cases (plain_request version)) [
        | inl plain ↦
            let same : Variant.plain ≡ v = ground (arith, e, neither, plain) in
            subst (Speaks configured version) same
              (not_r configured version neither, plain_request_sound version plain)
        | inr other ↦ absurd (ground (arith, e, neither, other))
      ]
    ]

pub accept_complete :
    (configured : Variant) (version : Bytes) (v : Variant)
    → Speaks configured version v
    → accept configured version ≡ some v
unfolding accept is_r
accept_complete configured version Variant.r (both, named) = rw (both, named) refl
accept_complete configured version Variant.plain (either, named) =
    rw (not_r_complete configured version either, plain_request_complete version named) refl
