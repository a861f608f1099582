-- ===== src/Referral.antt =====
-- crates/core/src/referral.rs: admitted direct targets for mounted prefixes, their validation and
-- the rebasing of a path. `String::from_utf8_lossy`, which only words an error, is a parameter.
pub mod Names
pub mod Canonical
pub mod Routing
use r9p.Base.{
  ℕ, Bool, true, false, not, ◌&&◌, ◌||◌, Bytes, bytes, List, [], ◌∷◌, ◌++◌, Option, none, some, any,
  all, drop, leb, ◌==◌, beq, if◌then◌else◌, Error, Result, ok, ◌>>=◌, ◌>>◌, ensure, ok_or,
  from_static, String,
}

pub record NamespaceReferral : Type 0 where
  pub mount_path : Bytes
  pub endpoint : Bytes
  pub uname : Bytes
  pub aname : Bytes
  pub exported_root : Bytes
  pub authority_boundary : Bytes
  pub generation : ℕ
  pub valid_for_ms : ℕ

-- `format!("namespace referral {field} {problem}")`.
unfoldable pub field_error : String → String → Error
unfolding bytes
field_error field problem = record {
  message = bytes "namespace referral " ++ (bytes field ++ (bytes " " ++ bytes problem));
}

abbrev pub slash : ℕ
slash = b'/'

abbrev pub root : Bytes
root = slash ∷ []

-- `*byte == 0 || byte.is_ascii_control()`.
abbrev pub is_control : ℕ → Bool
is_control byte = byte == 0 || (leb byte 31 || byte == 127)

unfoldable pub strip_prefix : Bytes → Bytes → Option Bytes
strip_prefix [] path = some path
strip_prefix (p ∷ prefix) [] = none
strip_prefix (p ∷ prefix) (b ∷ path) = if p == b then strip_prefix prefix path else none

unfoldable pub starts_with_slash : Bytes → Bool
starts_with_slash [] = false
starts_with_slash (b ∷ path) = b == slash

unfoldable pub ends_with_slash : Bytes → Bool
ends_with_slash [] = false
ends_with_slash (b ∷ []) = b == slash
ends_with_slash (b ∷ c ∷ path) = ends_with_slash (c ∷ path)

abbrev extend_first : ℕ → List Bytes → List Bytes
extend_first b [] = (b ∷ []) ∷ []
extend_first b (segment ∷ segments) = (b ∷ segment) ∷ segments

-- `path.split(|byte| *byte == b'/')`.
unfoldable pub split_slash : Bytes → List Bytes
split_slash [] = [] ∷ []
split_slash (b ∷ path) =
    let segments = split_slash path in if b == slash then [] ∷ segments else extend_first b segments

unfoldable pub is_segment : Bytes → Bool
unfolding bytes beq
is_segment segment =
    not (beq segment []) && (not (beq segment (b'.' ∷ [])) && not (beq segment (b'.' ∷ b'.' ∷ [])))

unfoldable pub is_absolute_path : Bytes → Bool → Bool
is_absolute_path path allow_root =
    if beq path root
    then allow_root
    else (starts_with_slash path
        && (not (ends_with_slash path)
            && (all is_segment (drop 1 (split_slash path)) && not (any is_control path))))

unfoldable pub validate_absolute_path : String → Bytes → Bool → Result (Unit {0})
validate_absolute_path field path allow_root =
    ensure (is_absolute_path path allow_root)
      (field_error field "must be a canonical absolute path")

unfoldable pub validate_nonempty : String → Bytes → Result (Unit {0})
validate_nonempty field value = ensure (not (beq value [])) (field_error field "must not be empty")

-- One round of the loop over the four text fields.
unfoldable pub validate_text : String → Bytes → Result (Unit {0})
validate_text field value = do
  validate_nonempty field value
  ensure (not (any is_control value)) (field_error field "contains a control byte")

unfoldable pub validate : NamespaceReferral → Result (Unit {0})
validate r = do
  validate_absolute_path "mount_path" r.mount_path false
  validate_absolute_path "exported_root" r.exported_root true
  validate_text "endpoint" r.endpoint
  validate_text "uname" r.uname
  validate_text "aname" r.aname
  validate_text "authority_boundary" r.authority_boundary
  ensure (not (r.generation == 0)) (from_static "namespace referral generation must be positive")
  ensure (not (r.valid_for_ms == 0))
      (from_static "namespace referral valid_for_ms must be positive")

unfoldable pub mounted_suffix : Bytes → Bytes → Option Bytes
mounted_suffix path mount_path =
    if beq path mount_path then some [] else elim (strip_prefix mount_path path) [
      | none ↦ none
      | some suffix ↦ if starts_with_slash suffix then some suffix else none
    ]

unfoldable pub join_namespace_path : Bytes → Bytes → Bytes
join_namespace_path root' suffix =
    if beq root' root && beq suffix []
    then root
    else (if beq root' root then suffix else if beq suffix [] then root' else root' ++ suffix)

unfoldable pub routed_path : (Bytes → Bytes) → NamespaceReferral → Bytes → Result Bytes
routed_path lossy r namespace_path = do
  validate_absolute_path "namespace_path" namespace_path true
  suffix ← ok_or (mounted_suffix namespace_path r.mount_path) (record {
    message =
        bytes "namespace path "
        ++ (lossy namespace_path ++ (bytes " is outside referral mount " ++ lossy r.mount_path));
  })
  ok (join_namespace_path r.exported_root suffix)
