-- ===== src/Stat/Paging.antt =====
-- Directory reads: what `dirread_chunk` returns is whole entries, at most `count` bytes of them, and
-- a directory stream decodes to the stats that were written.
use r9p.Base.{
  ℕ, ◌+◌, ◌^◌, ◌≤◌, ◌<◌, ◌≡◌, refl, sym, ◌∙◌, ap, Bytes, List, [], ◌∷◌, ◌++◌, length, length-append,
  append-nil, append_assoc, concat, map, All, Result, ok, arith, Result-cases, ◌⊎◌, inl, inr, leb,
  Bool-cases,
}
use r9p.Stat.{Stat, encode}
use r9p.Stat.Directory.{dirread_loop, dirread_chunk, sat_add64}
use r9p.Stat.RoundTrip.{IsStat, entry_bytes, encode_lem, length-entry_bytes}

dirread_loop-le :
    (stats : List Stat) (offset limit : ℕ) (out : Bytes) (position : ℕ) {data' : Bytes}
    → length out ≤ limit
    → limit < 2 ^ 32
    → dirread_loop stats offset limit out position ≡ ok data'
    → length data' ≤ limit
unfolding dirread_loop
dirread_loop-le [] offset limit out position h small e = ground arith
dirread_loop-le (s ∷ stats) offset limit out position {data' = data'} h small e =
    elim (Result-cases (encode s)) [
      | inr (x, bad) ↦ absurd (ground arith)
      | inl (bs, good) ↦
          let next = sat_add64 position (length bs) in
          ground (
            arith,
            length-append out bs,
            dirread_loop-le stats offset limit out next {data' = data'} h small,
            λ (k : length (out ++ bs) ≤ limit).
                dirread_loop-le stats offset limit (out ++ bs) next {data' = data'} k small,
          )
    ]

-- A directory read that succeeds never returns more than the `u32` count that the caller asked for.
pub dirread_chunk-le :
    (stats : List Stat) (offset count : ℕ) {data' : Bytes}
    → count < 2 ^ 32
    → dirread_chunk stats offset count ≡ ok data'
    → length data' ≤ count
unfolding dirread_chunk
dirread_chunk-le stats offset count small e =
    dirread_loop-le stats offset count [] 0 (omega arith) small e

-- The whole directory as one stream.
abbrev pub stream : List Stat → Bytes
stream stats = concat (map entry_bytes stats)

next_lem : (a b : ℕ) → a + b < 2 ^ 64 → sat_add64 a b ≡ a + b
next_lem a b h = omega arith

-- One round of the loop, at an entry that the offset lies behind and at one that it does not.
module _ (s : Stat) (stats : List Stat) (offset limit : ℕ) (out : Bytes) (position : ℕ)
    {bs : Bytes} where
  skip_step :
      encode s ≡ ok bs
      → position + length bs ≤ offset
      → offset < 2 ^ 64
      → dirread_loop (s ∷ stats) offset limit out position
        ≡ dirread_loop stats offset limit out (position + length bs)
  unfolding dirread_loop
  skip_step e h small =
      rw (e, dirread_loop, next_lem position (length bs) (omega arith)) (ground arith)

  take_step :
      encode s ≡ ok bs
      → offset ≤ position
      → 0 < length bs
      → position + length bs < 2 ^ 64
      → length out + length bs ≤ limit
      → limit < 2 ^ 32
      → dirread_loop (s ∷ stats) offset limit out position
        ≡ dirread_loop stats offset limit (out ++ bs) (position + length bs)
  unfolding dirread_loop
  take_step e before some_bytes small room bound =
      rw (e, dirread_loop, next_lem position (length bs) (omega arith)) (ground arith)

  full_step :
      encode s ≡ ok bs
      → offset ≤ position
      → 0 < length bs
      → position + length bs < 2 ^ 64
      → length out ≤ limit
      → limit < 2 ^ 32
      → limit < length out + length bs
      → dirread_loop (s ∷ stats) offset limit out position ≡ ok out
  unfolding dirread_loop
  full_step e before some_bytes small room bound over =
      rw (e, dirread_loop, next_lem position (length bs) (omega arith)) (ground arith)

-- Entries that end at or before the offset are skipped.
dirread_loop-skip :
    (front back : List Stat) (offset limit position : ℕ)
    → All IsStat front
    → position + length (stream front) ≡ offset
    → offset < 2 ^ 64
    → dirread_loop (front ++ back) offset limit [] position
      ≡ dirread_loop back offset limit [] offset
dirread_loop-skip [] back offset limit position h e small =
    ap (dirread_loop back offset limit []) (omega arith)
dirread_loop-skip (s ∷ front) back offset limit position h e small =
    let split = length-append (entry_bytes s) (stream front) in
    skip_step s (front ++ back) offset limit [] position (encode_lem s h.0) (omega (arith, split))
      small
    ∙ dirread_loop-skip front back offset limit (position + length (entry_bytes s)) h.1
        (omega (arith, split)) small

-- What a read at an entry boundary returns: the longest run of whole entries that fits.
pub data Page (back : List Stat) (limit : ℕ) (out : Bytes) (r : Result Bytes) : Type 0 where
  page :
      (mid rest : List Stat)
      → back ≡ mid ++ rest
      → r ≡ ok (out ++ stream mid)
      → length out + length (stream mid) ≤ limit
      → (rest ≡ [])
        ⊎ ((s : Stat) × (tail : List Stat) × (rest ≡ s ∷ tail)
            × (limit < length out + length (stream mid) + length (entry_bytes s)))
      → Page back limit out r

Page-cons :
    (s : Stat) (back : List Stat) (limit : ℕ) (out : Bytes) {r r' : Result Bytes}
    → r ≡ r'
    → Page back limit (out ++ entry_bytes s) r'
    → Page (s ∷ back) limit out r
Page-cons s back limit out e (page mid rest eq res room why) =
    let split = length-append (entry_bytes s) (stream mid) in
    let split' = length-append out (entry_bytes s) in
    page (s ∷ mid) rest (ap (◌∷◌ s) eq)
      (e ∙ res ∙ ap ok (append_assoc out (entry_bytes s) (stream mid)))
      (omega (arith, split, split')) (behind why)
  where
    behind :
        (rest ≡ [])
          ⊎ ((x : Stat) × (tail : List Stat) × (rest ≡ x ∷ tail)
              × (limit
                  < length (out ++ entry_bytes s) + length (stream mid) + length (entry_bytes x)))
        → (rest ≡ [])
          ⊎ ((x : Stat) × (tail : List Stat) × (rest ≡ x ∷ tail)
              × (limit < length out + length (stream (s ∷ mid)) + length (entry_bytes x)))
    behind (inl none_left) = inl none_left
    behind (inr (x, tail, next, over)) = inr (
      x,
      tail,
      next,
      omega (arith, length-append (entry_bytes s) (stream mid), length-append out (entry_bytes s)),
    )

dirread_loop-take :
    (back : List Stat) (offset limit : ℕ) (out : Bytes) (position : ℕ)
    → All IsStat back
    → offset ≤ position
    → position + length (stream back) < 2 ^ 64
    → length out ≤ limit
    → limit < 2 ^ 32
    → Page back limit out (dirread_loop back offset limit out position)
dirread_loop-take [] offset limit out position h before fits room small =
    page [] [] refl (unfold dirread_loop in rw append-nil) (omega arith) (inl refl)
dirread_loop-take (s ∷ back) offset limit out position h before fits room small =
    elim (Bool-cases (leb (length out + length (entry_bytes s)) limit)) [
      | inl fit ↦
          Page-cons s back limit out
            (take_step s back offset limit out position (encode_lem s h.0) before
              (omega (arith, size)) (omega (arith, split)) (ground arith) small)
            (dirread_loop-take back offset limit (out ++ entry_bytes s)
              (position + length (entry_bytes s)) h.1 (omega arith) (omega (arith, split))
              (ground (arith, length-append out (entry_bytes s))) small)
      | inr over ↦
          page [] (s ∷ back) refl
            (full_step s back offset limit out position (encode_lem s h.0) before
                (omega (arith, size)) (omega (arith, split)) room small (ground arith)
              ∙ ap ok (sym (append-nil out)))
            (omega arith) (inr (s, back, refl, ground arith))
    ]
  where
    split : length (stream (s ∷ back)) ≡ length (entry_bytes s) + length (stream back)
    split = length-append (entry_bytes s) (stream back)

    size : 2 ≤ length (entry_bytes s)
    size = omega (arith, length-entry_bytes s)

-- A directory read at the end of the entries `front` returns the longest run of whole entries
-- behind them that `count` bytes hold; for stats that fit the wire, a directory below 2 ^ 64 bytes and
-- a `u32` count.
pub dirread_chunk-Page :
    (front back : List Stat) (count : ℕ)
    → All IsStat front
    → All IsStat back
    → length (stream front) + length (stream back) < 2 ^ 64
    → count < 2 ^ 32
    → Page back count [] (dirread_chunk (front ++ back) (length (stream front)) count)
unfolding dirread_chunk
dirread_chunk-Page front back count hf hb fits small =
    rw (dirread_loop-skip front back (length (stream front)) count 0 hf (omega arith) (omega arith))
      (dirread_loop-take back (length (stream front)) count [] (length (stream front)) hb
        (omega arith) fits (omega arith) small)
