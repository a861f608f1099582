-- ===== src/Endpoint/RoundTrip.antt =====
-- A displayed endpoint parses to itself.
use r9p.Base.{
  ℕ, ◌^◌, ◌<◌, ◌≤◌, ◌≡◌, ◌≢◌, inl, inr, refl, ◌∙◌, Bool, false, ◌||◌, Bool-cases, ltb, ◌==◌, Bytes,
  [], ◌∷◌, ◌++◌, length, length-append, any, All, none, some, ok, arith,
}
use r9p.Endpoint.Decimal.{
  u16_text, AllDigits, u16_text-AllDigits, length-u16_text-le, parse_u16-u16_text,
}
use r9p.Endpoint.{
  TcpEndpoint, is_blank, is_delimiter, split_once, rsplit_once, strip_colon, split_bracketed,
  split_plain, split_host, parse_port, parse, display,
}

-- A byte that a host may have.
abbrev pub HostByte : ℕ → Type 0
HostByte b = (33 ≤ b) × (b ≢ 127) × (b ≢ b'/') × (b ≢ b'[') × (b ≢ b']')

pub record IsEndpoint (e : TcpEndpoint) : Type 0 where
  pub nonempty : 0 < length e.host
  pub short : length e.host ≤ 255
  pub host_bytes : All HostByte e.host
  pub port_positive : 0 < e.port
  pub port_small : e.port < 2 ^ 16

split_once-append :
    (c : ℕ) (xs ys : Bytes) → All (λ b. b ≢ c) xs → split_once c (xs ++ (c ∷ ys)) ≡ some (xs, ys)
unfolding split_once
split_once-append c [] ys h = ground arith
split_once-append c (x ∷ xs) ys h = ground (arith, h.0, split_once-append c xs ys)

rsplit_once-none : (c : ℕ) (ys : Bytes) → All (λ b. b ≢ c) ys → rsplit_once c ys ≡ none
unfolding rsplit_once
rsplit_once-none c [] h = refl
rsplit_once-none c (y ∷ ys) h = ground (arith, h.0, rsplit_once-none c ys)

rsplit_once-append :
    (c : ℕ) (xs ys : Bytes) → All (λ b. b ≢ c) ys → rsplit_once c (xs ++ (c ∷ ys)) ≡ some (xs, ys)
unfolding rsplit_once
rsplit_once-append c [] ys h = ground (arith, rsplit_once-none c ys)
rsplit_once-append c (x ∷ xs) ys h = ground (arith, rsplit_once-append c xs ys)

any_none : (p : ℕ → Bool) (xs : Bytes) → All (λ b. p b ≡ false) xs → any p xs ≡ false
any_none p [] h = refl
any_none p (x ∷ xs) h = ground (arith, h.0, any_none p xs)

any-append : (p : ℕ → Bool) (xs ys : Bytes) → any p (xs ++ ys) ≡ (any p xs || any p ys)
any-append p [] ys = refl
any-append p (x ∷ xs) ys = ground (arith, any-append p xs ys)

All-map {κ ι} :
    (P : ℕ → Type κ) (Q : ℕ → Type ι) (xs : Bytes) → ((b : ℕ) → P b → Q b) → All P xs → All Q xs
All-map P Q [] f h = tt
All-map P Q (x ∷ xs) f h = (f x h.0, All-map P Q xs f h.1)

host_not_blank : (xs : Bytes) → All HostByte xs → any is_blank xs ≡ false
unfolding is_blank
host_not_blank xs h = any_none is_blank xs (All-map HostByte _ xs (λ b k. ground arith) h)

host_not_delimited : (xs : Bytes) → All HostByte xs → any is_delimiter xs ≡ false
unfolding is_delimiter
host_not_delimited xs h = any_none is_delimiter xs (All-map HostByte _ xs (λ b k. ground arith) h)

digits_not_blank : (xs : Bytes) → AllDigits xs → any is_blank xs ≡ false
unfolding is_blank
digits_not_blank xs h = any_none is_blank xs (All-map _ _ xs (λ b k. ground arith) h)

module _ (e : TcpEndpoint) (h : IsEndpoint e) where
  parse_port_lem : parse_port (u16_text e.port) ≡ some e.port
  unfolding parse_port
  parse_port_lem =
      rw (parse_u16-u16_text e.port h.port_small, parse_port) (ground (arith, h.port_positive))

  -- The text passes the first test, and splits into the host and the port.
  abbrev Splits : Bytes → Type 0
  Splits text =
      ((length text == 0 || ltb 263 (length text) || any is_blank text) ≡ false)
      × (split_host text ≡ ok (e.host, u16_text e.port))

  bracketed_Splits : Splits (b'[' ∷ (e.host ++ (b']' ∷ (b':' ∷ u16_text e.port))))
  unfolding split_host split_bracketed strip_colon is_blank
  bracketed_Splits = (
    ground (
      arith,
      h.short,
      length-append e.host (b']' ∷ (b':' ∷ u16_text e.port)),
      length-u16_text-le e.port,
      any-append is_blank e.host (b']' ∷ (b':' ∷ u16_text e.port)),
      host_not_blank e.host h.host_bytes,
      digits_not_blank (u16_text e.port) (u16_text-AllDigits e.port),
    ),
    rw
        (split_once-append b']' e.host (b':' ∷ u16_text e.port)
          (All-map HostByte _ e.host (λ b k. k.4) h.host_bytes))
        refl,
  )

  split_host-split_plain :
      (text more : Bytes)
      → 0 < length text
      → All HostByte text
      → split_host (text ++ more) ≡ split_plain (text ++ more)
  unfolding split_host
  split_host-split_plain [] more n k = absurd (omega arith)
  split_host-split_plain (b ∷ text) more n k = ground (arith, k.0)

  plain_Splits : any (λ b. b == b':') e.host ≡ false → Splits (e.host ++ (b':' ∷ u16_text e.port))
  unfolding split_plain is_blank
  plain_Splits no_colon = (
    ground (
      arith,
      h.short,
      h.nonempty,
      length-append e.host (b':' ∷ u16_text e.port),
      length-u16_text-le e.port,
      any-append is_blank e.host (b':' ∷ u16_text e.port),
      host_not_blank e.host h.host_bytes,
      digits_not_blank (u16_text e.port) (u16_text-AllDigits e.port),
    ),
    split_host-split_plain e.host (b':' ∷ u16_text e.port) h.nonempty h.host_bytes
        ∙ rw
            (
              rsplit_once-append b':' e.host (u16_text e.port)
                  (All-map _ _ (u16_text e.port) (λ b k. ground arith) (u16_text-AllDigits e.port)),
              no_colon,
            )
            refl,
  )

  parse_split : (text : Bytes) → Splits text → parse text ≡ ok e
  unfolding parse
  parse_split text (clean, split) = rw (clean, split, sized, parse_port_lem) refl
    where
      sized : (length e.host == 0 || ltb 255 (length e.host) || any is_delimiter e.host) ≡ false
      sized = ground (arith, h.nonempty, h.short, host_not_delimited e.host h.host_bytes)

-- A displayed endpoint parses to itself: its host has 1 to 255 bytes that a host may have, colons among
-- them, and its port is not 0.
pub parse-display : (e : TcpEndpoint) → IsEndpoint e → parse (display e) ≡ ok e
unfolding display
parse-display e h = elim (Bool-cases (any (λ b. b == b':') e.host)) [
  | inl colon ↦ rw colon (parse_split e h _ (bracketed_Splits e h))
  | inr plain ↦ rw plain (parse_split e h _ (plain_Splits e h plain))
]
