-- ===== src/Tests/Routes.antt =====
-- A referral for "/m" to "/e", and the path "/m/a" below it.
use r9p.Base.{ℕ, refl, [], ◌∷◌, ◌≡◌, Bytes, All, beq, ok, arith}
use r9p.Referral.{
  NamespaceReferral, validate, validate_absolute_path, validate_text, validate_nonempty,
  is_absolute_path, is_segment, split_slash, starts_with_slash, ends_with_slash, routed_path,
}
use r9p.Referral.Names.{IsName}
use r9p.Referral.Routing.{routed_path_iff}

abbrev referral : NamespaceReferral
referral = record {
  mount_path = b'/' ∷ b'm' ∷ [];
  endpoint = b'h' ∷ [];
  uname = b'g' ∷ [];
  aname = b'a' ∷ [];
  exported_root = b'/' ∷ b'e' ∷ [];
  authority_boundary = b'b' ∷ [];
  generation = 1;
  valid_for_ms = 1000;
}

abbrev path : Bytes
path = b'/' ∷ b'm' ∷ b'/' ∷ b'a' ∷ []

abbrev target : Bytes
target = b'/' ∷ b'e' ∷ b'/' ∷ b'a' ∷ []

abbrev name : ℕ → Bytes
name letter = letter ∷ []

referral_valid : validate referral ≡ ok tt
unfolding validate validate_absolute_path validate_text validate_nonempty is_absolute_path
    is_segment split_slash starts_with_slash ends_with_slash beq
referral_valid = refl

-- The letters are names.
letters_IsName :
    All IsName (name b'm' ∷ []) × All IsName (name b'e' ∷ []) × All IsName (name b'a' ∷ [])
letters_IsName = grind arith

routed_path_iff_example : routed_path (λ bytes. bytes) referral path ≡ ok target
routed_path_iff_example =
    (routed_path_iff (λ bytes. bytes) referral path target referral_valid).1
      (name b'm' ∷ [], name b'e' ∷ [], name b'a' ∷ [], letters_IsName, refl, refl, refl, refl)
