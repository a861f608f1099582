-- ===== src/Endpoint.antt =====
-- crates/core/src/endpoint.rs: `TcpEndpoint`, a host and a port, parsed and displayed. The conversion
-- from a socket address and the test for an unspecified address are the standard library's.
pub mod Decimal
pub mod RoundTrip
use r9p.Base.{
  ℕ, ◌+◌, Bool, true, false, not, ◌&&◌, ◌||◌, ltb, leb, ◌==◌, if◌then◌else◌, Bytes, bytes, [], ◌∷◌,
  ◌++◌, length, any, Option, none, some, Error, Result, ok, err, ◌>>=◌, ◌>>◌, ensure, ok_or,
}
use r9p.Endpoint.Decimal.{u16_text, parse_u16}

abbrev pub max_host_bytes : ℕ
max_host_bytes = 255

pub record TcpEndpoint : Type 0 where
  pub host : Bytes
  pub port : ℕ

-- `is_ascii_control` and `is_ascii_whitespace`.
unfoldable pub is_blank : ℕ → Bool
is_blank b = leb b 32 || b == 127

unfoldable pub is_delimiter : ℕ → Bool
is_delimiter b = b == b'/' || b == b'[' || b == b']'

-- `split_once` at a byte, and `rsplit_once`.
unfoldable pub split_once : ℕ → Bytes → Option (Bytes × Bytes)
split_once c [] = none
split_once c (x ∷ rest) =
    if x == c
    then some ([], rest)
    else elim (split_once c rest) [ none ↦ none | some (before, after) ↦ some (x ∷ before, after) ]

unfoldable pub rsplit_once : ℕ → Bytes → Option (Bytes × Bytes)
rsplit_once c [] = none
rsplit_once c (x ∷ rest) = elim (rsplit_once c rest) [
  | some (before, after) ↦ some (x ∷ before, after)
  | none ↦ if x == c then some ([], rest) else none
]

unfoldable pub invalid_endpoint : Bytes → Error
unfolding bytes
invalid_endpoint value = record { message = bytes "invalid TCP endpoint " ++ value }

-- `suffix.strip_prefix(':')`.
unfoldable pub strip_colon : Bytes → Option Bytes
strip_colon [] = none
strip_colon (b ∷ rest) = if b == b':' then some rest else none

unfoldable pub split_bracketed : Bytes → Result (Bytes × Bytes)
unfolding invalid_endpoint split_once strip_colon
split_bracketed value = do
  (host, suffix) ← ok_or (split_once b']' value) (invalid_endpoint value)
  port ← ok_or (strip_colon suffix) (invalid_endpoint value)
  ok (host, port)

unfoldable pub split_plain : Bytes → Result (Bytes × Bytes)
unfolding bytes invalid_endpoint rsplit_once
split_plain value = do
  (host, port) ← ok_or (rsplit_once b':' value) (invalid_endpoint value)
  ensure (not (any (λ b. b == b':') host))
      (record { message = bytes "IPv6 TCP endpoint must be bracketed: " ++ value })
  ok (host, port)

unfoldable pub split_host : Bytes → Result (Bytes × Bytes)
split_host [] = split_plain []
split_host (b ∷ rest) = if b == b'[' then split_bracketed rest else split_plain (b ∷ rest)

unfoldable pub parse_port : Bytes → Option ℕ
parse_port text = elim (parse_u16 text) [
  | none ↦ none
  | some port ↦ if ltb 0 port then some port else none
]

unfoldable pub parse : Bytes → Result TcpEndpoint
unfolding bytes invalid_endpoint is_blank is_delimiter
parse value = do
  ensure (not (length value == 0 || ltb (max_host_bytes + 8) (length value) || any is_blank value))
      (invalid_endpoint value)
  (host, port_text) ← split_host value
  ensure (not (length host == 0 || ltb max_host_bytes (length host) || any is_delimiter host))
      (record { message = bytes "invalid TCP endpoint host " ++ host })
  port ←
      ok_or (parse_port port_text)
        (record { message = bytes "invalid TCP endpoint port " ++ port_text })
  ok (record { host = host; port = port })

unfoldable pub display : TcpEndpoint → Bytes
display e =
    if any (λ b. b == b':') e.host
    then b'[' ∷ (e.host ++ (b']' ∷ (b':' ∷ u16_text e.port)))
    else e.host ++ (b':' ∷ u16_text e.port)
