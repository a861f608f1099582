-- ===== src/Endpoint/Decimal.antt =====
-- `u16` in decimal: `to_string` and `str::parse`, which allows a plus sign.
use r9p.Base.{
  ℕ, zero, suc, ◌+◌, ◌-◌, ◌*◌, ◌/◌, ◌%◌, ◌^◌, ◌<◌, ◌≤◌, ◌≡◌, refl, ap, ◌∙◌, Bool, true, false, ◌&&◌,
  ltb, leb, ◌==◌, if◌then◌else◌, Bool-cases, inl, inr, Bytes, [], ◌∷◌, ◌++◌, append_assoc,
  append-nil, sym, ◌≢◌, Option, none, some, All, length, length-append, arith,
}

-- At most so many digits.
unfoldable pub decimal : ℕ → ℕ → Bytes
decimal zero n = []
decimal (suc k) n =
    let shorter = decimal k (n / 10) ++ ((48 + n % 10) ∷ []) in
    if ltb n 10 then (48 + n) ∷ [] else shorter

unfoldable pub u16_text : ℕ → Bytes
unfolding decimal
u16_text n = decimal 5 n

unfoldable pub is_digit : ℕ → Bool
is_digit c = leb b'0' c && leb c b'9'

unfoldable pub parse_digits : ℕ → Bytes → Option ℕ
unfolding is_digit
parse_digits acc [] = some acc
parse_digits acc (c ∷ rest) = elim (is_digit c && ltb (acc * 10 + (c - b'0')) (2 ^ 16)) [
  | true ↦ parse_digits (acc * 10 + (c - b'0')) rest
  | false ↦ none
]

unfoldable pub parse_u16 : Bytes → Option ℕ
unfolding parse_digits
parse_u16 [] = none
parse_u16 (c ∷ []) = if c == b'+' then none else parse_digits 0 (c ∷ [])
parse_u16 (c ∷ d ∷ rest) =
    if c == b'+' then parse_digits 0 (d ∷ rest) else parse_digits 0 (c ∷ d ∷ rest)

digit_lem :
    (acc n : ℕ) (rest : Bytes)
    → n < 10
    → acc * 10 + n < 2 ^ 16
    → parse_digits acc ((48 + n) ∷ rest) ≡ parse_digits (acc * 10 + n) rest
unfolding parse_digits is_digit
digit_lem acc n rest h small =
    let value : 48 + n - 48 ≡ n = omega arith in
    let accepted : (leb 48 (48 + n) && leb (48 + n) 57 && ltb (acc * 10 + (48 + n - 48)) (2 ^ 16))
        ≡ true =
      ground arith in
    rw (accepted, parse_digits, value) refl

-- 10 ^ k.
abbrev pub limit : ℕ → ℕ
limit zero = 1
limit (suc k) = 10 * limit k

pub parse-decimal :
    (k n : ℕ) (rest : Bytes)
    → n < limit k
    → n < 2 ^ 16
    → 0 < k
    → parse_digits 0 (decimal k n ++ rest) ≡ parse_digits n rest
unfolding decimal
parse-decimal zero n rest h small pos = absurd (omega arith)
parse-decimal (suc k) n rest h small pos = elim (Bool-cases (ltb n 10)) [
  | inl short ↦ rw short (
      digit_lem 0 n rest (ground arith) (omega arith)
      ∙ ap (λ m. parse_digits m rest) (let e : 0 * 10 + n ≡ n = omega arith in e))
  | inr long ↦
      let ten : 10 ≤ n = ground arith in
      let deeper : 0 < k = positive k n ten h in
      let whole : n / 10 * 10 + n % 10 ≡ n = omega arith in
      rw (long, append_assoc)
        (parse-decimal k (n / 10) ((48 + n % 10) ∷ rest) (omega arith) (omega arith) deeper
          ∙ digit_lem (n / 10) (n % 10) rest (omega arith) (omega arith)
          ∙ ap (λ m. parse_digits m rest) whole)
]
  where
    positive : (j m : ℕ) → 10 ≤ m → m < limit (suc j) → 0 < j
    positive zero m big bound = absurd (omega arith)
    positive (suc j) m big bound = omega arith

abbrev pub AllDigits : Bytes → Type 0
AllDigits xs = All (λ c. (48 ≤ c) × (c ≤ 57)) xs

AllDigits-append :
    (xs : Bytes) (c : ℕ) → AllDigits xs → 48 ≤ c → c ≤ 57 → AllDigits (xs ++ (c ∷ []))
AllDigits-append [] c h low high = ((low, high), tt)
AllDigits-append (x ∷ xs) c h low high = (h.0, AllDigits-append xs c h.1 low high)

decimal-AllDigits : (k n : ℕ) → AllDigits (decimal k n)
unfolding decimal
decimal-AllDigits zero n = tt
decimal-AllDigits (suc k) n = elim (Bool-cases (ltb n 10)) [
  | inl short ↦ rw short ((omega arith, ground arith), tt)
  | inr long ↦ rw long (
      AllDigits-append (decimal k (n / 10)) (48 + n % 10) (decimal-AllDigits k (n / 10))
        (omega arith) (omega arith))
]

length-decimal-le : (k n : ℕ) → length (decimal k n) ≤ k
unfolding decimal
length-decimal-le zero n = omega arith
length-decimal-le (suc k) n = elim (Bool-cases (ltb n 10)) [
  | inl short ↦ rw short (omega arith)
  | inr long ↦ rw long (
      omega (
        arith,
        length-append (decimal k (n / 10)) ((48 + n % 10) ∷ []),
        length-decimal-le k (n / 10),
      ))
]

pub u16_text-AllDigits : (n : ℕ) → AllDigits (u16_text n)
unfolding u16_text
u16_text-AllDigits n = decimal-AllDigits 5 n

pub length-u16_text-le : (n : ℕ) → length (u16_text n) ≤ 5
unfolding u16_text
length-u16_text-le n = length-decimal-le 5 n

digits_parse :
    (xs : Bytes) (n : ℕ)
    → AllDigits xs
    → parse_digits 0 xs ≡ some n
    → xs ≢ []
    → parse_u16 xs ≡ some n
unfolding parse_u16
digits_parse [] n h e ne = absurd (ne refl)
digits_parse (c ∷ []) n h e ne = ground (arith, h.0)
digits_parse (c ∷ d ∷ rest) n h e ne = ground (arith, h.0)

pub parse_u16-u16_text : (n : ℕ) → n < 2 ^ 16 → parse_u16 (u16_text n) ≡ some n
unfolding u16_text
parse_u16-u16_text n small =
    digits_parse (decimal 5 n) n (decimal-AllDigits 5 n) parsed (λ e. some_digit e)
  where
    parsed : parse_digits 0 (decimal 5 n) ≡ some n
    parsed =
        ap (parse_digits 0) (sym (append-nil (decimal 5 n)))
        ∙ parse-decimal 5 n [] (omega arith) small (omega arith)
        ∙ unfold parse_digits in refl

    some_digit : decimal 5 n ≡ [] → ⊥
    some_digit e =
        unfold decimal in
        ground (arith, ap length e, length-append (decimal 4 (n / 10)) ((48 + n % 10) ∷ []))
