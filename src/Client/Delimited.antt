-- ===== src/Client/Delimited.antt =====
-- The bounded read of one record: it ends, and what it returns is one delimited record.
use r9p.Base.{
  ℕ, zero, suc, ◌+◌, ◌-◌, ◌<◌, ◌≤◌, ◌≡◌, ◌≢◌, inl, inr, refl, sym, ap, ◌∙◌, Bytes, [], ◌∷◌, ◌++◌,
  append_assoc, Option, none, some, length, length-append, Bool-cases, Result-cases, Option-cases,
  ◌==◌, All, Error, Result, ok, err, arith,
}
use r9p.Base.Stateful.{Stateful}
use r9p.Base.Run.{always}
use r9p.Client.Support.{
  checked_read_data, checked_advance_offset, position, complete, continue, read_round,
  read_delimited_loop, read_delimited_with,
}

-- No byte of it is the delimiter.
abbrev pub Lacks : ℕ → Bytes → Type 0
Lacks delimiter xs = All (λ b. b ≢ delimiter) xs

Lacks-append : (d : ℕ) (xs ys : Bytes) → Lacks d xs → Lacks d ys → Lacks d (xs ++ ys)
Lacks-append d [] ys hx hy = hy
Lacks-append d (x ∷ xs) ys hx hy = (hx.0, Lacks-append d xs ys hx.1 hy)

-- A record of bytes without the delimiter, and the delimiter at the end.
pub record IsRecord (delimiter : ℕ) (out : Bytes) : Type 0 where
  pub body : Bytes
  pub ends : out ≡ body ++ (delimiter ∷ [])
  pub lacks : Lacks delimiter body

position_none : (d : ℕ) (xs : Bytes) → position d xs ≡ none → Lacks d xs
unfolding position
position_none d [] e = tt
position_none d (x ∷ xs) e = elim (Bool-cases (x == d)) [
  | inl same ↦ cc (rw same at e)
  | inr other ↦ elim (Option-cases (position d xs)) [
    | inl missing ↦ (ground arith, position_none d xs missing)
    | inr (i, found) ↦ absurd (ground arith)
  ]
]

position_last :
    (d : ℕ) (xs : Bytes) (i : ℕ) → position d xs ≡ some i → i + 1 ≡ length xs → IsRecord d xs
unfolding position
position_last d [] i e h = cc
position_last d (x ∷ xs) i e h = elim (Bool-cases (x == d)) [
  | inl same ↦ record { body = []; ends = single xs (ground arith) (ground arith); lacks = tt }
  | inr other ↦ elim (Option-cases (position d xs)) [
    | inl missing ↦ absurd (ground arith)
    | inr (j, found) ↦
        let later = position_last d xs j found (ground arith) in
        record {
          body = x ∷ later.body;
          ends = ap (◌∷◌ x) later.ends;
          lacks = (ground arith, later.lacks);
        }
  ]
]
  where
    single : (ys : Bytes) → x ≡ d → length ys ≡ 0 → x ∷ ys ≡ d ∷ []
    single [] same none_left = ap (λ (b : ℕ). b ∷ []) same
    single (y ∷ ys) same none_left = absurd (omega arith)

-- What a round has read: bytes without the delimiter that are kept, or the end of a record.
read_round-complete :
    (d offset remaining : ℕ) (out : Bytes) (answer : Result Bytes) (whole : Bytes)
    → read_round d offset remaining out answer ≡ ok (complete whole)
    → (payload : Bytes) × (answer ≡ ok payload)
      × (whole ≡ out ++ payload)
      × (length payload ≤ remaining)
      × IsRecord d payload
unfolding read_round checked_read_data checked_advance_offset
read_round-complete d offset remaining out (err e) whole h = cc
read_round-complete d offset remaining out (ok payload) whole h =
    elim (Option-cases (position d payload)) [
      | inl missing ↦ absurd (ground arith)
      | inr (i, found) ↦ (
        payload,
        refl,
        ground arith,
        ground arith,
        position_last d payload i found (ground arith),
      )
    ]

read_round-continue :
    (d offset remaining : ℕ) (out : Bytes) (answer : Result Bytes) (offset' remaining' : ℕ)
    (out' : Bytes)
    → read_round d offset remaining out answer ≡ ok (continue offset' remaining' out')
    → (payload : Bytes) × (answer ≡ ok payload)
      × (out' ≡ out ++ payload)
      × (0 < length payload)
      × (length payload ≤ remaining)
      × (offset' ≡ offset + length payload)
      × (remaining' ≡ remaining - length payload)
      × Lacks d payload
unfolding read_round checked_read_data checked_advance_offset
read_round-continue d offset remaining out (err e) offset' remaining' out' h = cc
read_round-continue d offset remaining out (ok payload) offset' remaining' out' h =
    elim (Option-cases (position d payload)) [
      | inl missing ↦ (
        payload,
        refl,
        ground arith,
        ground arith,
        ground arith,
        ground arith,
        ground arith,
        position_none d payload missing,
      )
      | inr (i, found) ↦ absurd (ground arith)
    ]

module _ {S : Type 0} where
  -- A file whose reads answer a prefix of what stands at the offset.
  pub record IsFile (content : Bytes) (read_once : ℕ → ℕ → Stateful S Bytes) : Type 0 where
    pub honest :
        (before after : Bytes) (n : ℕ) (s : S) (payload : Bytes)
        → content ≡ before ++ after
        → (read_once (length before) n s).0 ≡ ok payload
        → (rest : Bytes) × (after ≡ payload ++ rest)

  -- The read fails, or returns what it had and then one record, with which the rest of the file starts.
  pub data Finds (delimiter : ℕ) (after : Bytes) (remaining : ℕ) (out : Bytes)
      : Option (Result Bytes × S) → Type 0 where
    fails : (e : Error) (s' : S) → Finds delimiter after remaining out (some (err e, s'))
    finds :
        (found more whole : Bytes) (s' : S)
        → IsRecord delimiter found
        → after ≡ found ++ more
        → length found ≤ remaining
        → whole ≡ out ++ found
        → Finds delimiter after remaining out (some (ok whole, s'))

IsRecord-append : (d : ℕ) (xs ys : Bytes) → Lacks d xs → IsRecord d ys → IsRecord d (xs ++ ys)
IsRecord-append d xs ys lacks r = record {
  body = xs ++ r.body;
  ends = ap (◌++◌ xs) r.ends ∙ sym (append_assoc xs r.body (d ∷ []));
  lacks = Lacks-append d xs r.body lacks r.lacks;
}

module _ {S : Type 0} (content : Bytes) (read_once : ℕ → ℕ → Stateful S Bytes)
    (file : IsFile content read_once) (delimiter : ℕ) where
  Finds-step :
      (payload rest out : Bytes) (remaining : ℕ) (r : Option (Result Bytes × S))
      → Lacks delimiter payload
      → length payload ≤ remaining
      → Finds delimiter rest (remaining - length payload) (out ++ payload) r
      → Finds delimiter (payload ++ rest) remaining out r
  Finds-step payload rest out remaining _ lacks le (Finds.fails e s') = Finds.fails e s'
  Finds-step payload rest out remaining _ lacks le
        (Finds.finds found more whole s' is_record at_start short joined) =
      Finds.finds (payload ++ found) more whole s'
        (IsRecord-append delimiter payload found lacks is_record)
        (ap (◌++◌ payload) at_start ∙ sym (append_assoc payload found more))
        (omega (arith, length-append payload found)) (joined ∙ append_assoc out payload found)

  loop-Finds :
      (fuel : ℕ) (before after : Bytes) (remaining : ℕ) (out : Bytes) (s : S)
      → content ≡ before ++ after
      → remaining < fuel
      → Finds delimiter after remaining out (
          read_delimited_loop
            (λ o n. always (read_once o n))
            delimiter
            fuel
            (length before)
            remaining
            out
            s)
  unfolding read_delimited_loop
  loop-Finds zero before after remaining out s split h = absurd (omega arith)
  loop-Finds (suc fuel) before after remaining out s split h = elim (Bool-cases (remaining == 0)) [
    | inl spent ↦ rw (spent, read_delimited_loop) (Finds.fails _ s)
    | inr more ↦
        elim (Result-cases (
          read_round delimiter (length before) remaining out
            (read_once (length before) remaining s).0)) [
              | inr (e, bad) ↦ rw (more, bad, read_delimited_loop) (Finds.fails e _)
              | inl (complete whole, good) ↦
                  let (payload, answered, joined, short, is_record) =
                    read_round-complete delimiter (length before) remaining out
                      (read_once (length before) remaining s).0 whole good in
                  let (rest, at_start) =
                    file.honest before after remaining s payload split answered in
                  rw (more, good, read_delimited_loop)
                    (Finds.finds payload rest whole _ is_record at_start short joined)
              | inl (continue offset' remaining' out', good) ↦
                  let (payload, answered, joined, positive, short, eo, er, lacks) =
                    read_round-continue delimiter (length before) remaining out
                      (read_once (length before) remaining s).0 offset' remaining' out' good in
                  let (rest, at_start) =
                    file.honest before after remaining s payload split answered in
                  rw
                    (
                      more,
                      good,
                      read_delimited_loop,
                      at_start,
                      eo,
                      er,
                      joined,
                      ← length-append before payload,
                    )
                    (Finds-step payload rest out remaining _ lacks short (
                      loop-Finds fuel (before ++ payload) rest (remaining - length payload)
                        (out ++ payload) (read_once (length before) remaining s).1
                        (split ∙ ap (◌++◌ before) at_start ∙ sym (append_assoc before payload rest))
                        (omega arith)))
            ]
  ]

  -- A bounded read of a record from a file ends; when it succeeds, what it returns is one record, with the
  -- delimiter at its end and nowhere else, that stands in the file at the offset, and it is no longer than
  -- the bound.
  pub read_delimited_with-Finds :
      (before after : Bytes) (count : ℕ) (s : S)
      → content ≡ before ++ after
      → Finds delimiter after count []
          (read_delimited_with (λ o n. always (read_once o n)) (length before) count delimiter s)
  unfolding read_delimited_with
  read_delimited_with-Finds before after count s split = elim (Bool-cases (count == 0)) [
    | inl none_asked ↦ rw (none_asked, read_delimited_with) (Finds.fails _ s)
    | inr asked ↦
        rw (asked, read_delimited_with)
          (loop-Finds (count + 1) before after count [] s split (omega arith))
  ]
