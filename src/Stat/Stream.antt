-- ===== src/Stat/Stream.antt =====
-- `decode_dir_entries` on any bytes, and on the stream that a directory's stats make.
use r9p.Base.{
  ℕ, zero, suc, ◌+◌, ◌^◌, ◌≤◌, ◌<◌, ◌≡◌, ◌≢◌, sym, ◌∙◌, ap, Bytes, List, [], ◌∷◌, ◌++◌, length,
  length-append, append-nil, append_assoc, All, ok, some, none, arith, Result-cases, inl, inr,
  take-append_left, drop-append_left, get_or,
}
use r9p.Wire.{from_le, to_le}
use r9p.Wire.Reads.{from_le-to_le}
use r9p.Stat.{Stat}
use r9p.Stat.Decode.{decode, next_entry, decode_dir_loop, decode_dir_entries}
use r9p.Stat.RoundTrip.{IsStat, entry_bytes, stat_bytes, decode_lem, length-entry_bytes}
use r9p.Stat.Paging.{stream}

-- An entry moves the offset by two bytes at least.
next_entry-lt :
    (data' : Bytes) (offset : ℕ) {s : Stat} {end : ℕ}
    → next_entry data' offset ≡ ok (s, end)
    → offset + 2 ≤ end
unfolding next_entry
next_entry-lt data' offset e = ground arith

decode_dir_loop-ne-none :
    (fuel : ℕ) (data' : Bytes) (offset : ℕ) (entries : List Stat)
    → length data' ≤ fuel + offset
    → decode_dir_loop fuel data' offset entries ≢ none
unfolding decode_dir_loop
decode_dir_loop-ne-none zero data' offset entries h = ground arith
decode_dir_loop-ne-none (suc fuel) data' offset entries h =
    elim (Result-cases (next_entry data' offset)) [
      | inr (x, bad) ↦ ground arith
      | inl ((s, end), good) ↦ ground (
        arith,
        next_entry-lt data' offset good,
        decode_dir_loop-ne-none fuel data' end (entries ++ (s ∷ [])),
      )
    ]

-- The loop over a directory stream ends on any bytes.
pub decode_dir_entries-ne-none : (data' : Bytes) → decode_dir_entries data' ≢ none
unfolding decode_dir_entries
decode_dir_entries-ne-none data' = decode_dir_loop-ne-none (length data') data' 0 [] (omega arith)

-- The size in front of an entry.
abbrev size_of : Bytes → ℕ
size_of bs = from_le (get_or bs 0 0 ∷ get_or bs 1 0 ∷ [])

size_of_lem : (n : ℕ) (rest : Bytes) → n < 2 ^ 16 → size_of (to_le 2 n ++ rest) ≡ n
unfolding to_le
size_of_lem n rest h = from_le-to_le 2 n h

next_entry_sized :
    (before after entry : Bytes) (n : ℕ) {s : Stat}
    → n + 2 ≡ length entry
    → size_of (entry ++ after) ≡ n
    → decode entry ≡ ok s
    → length (before ++ (entry ++ after)) < 2 ^ 64
    → next_entry (before ++ (entry ++ after)) (length before) ≡ ok (s, length before + length entry)
unfolding next_entry
next_entry_sized before after entry n sized size good fits =
    rw (drop-append_left before (entry ++ after), size, sized, take-append_left entry after, good)
      (ground (arith, length-append before (entry ++ after), length-append entry after))

next_entry_lem :
    (before after : Bytes) (s : Stat)
    → IsStat s
    → length (before ++ (entry_bytes s ++ after)) < 2 ^ 64
    → next_entry (before ++ (entry_bytes s ++ after)) (length before)
      ≡ ok (s, length before + length (entry_bytes s))
next_entry_lem before after s h fits =
    let n = length (stat_bytes s) in
    next_entry_sized before after (entry_bytes s) n (sym (length-entry_bytes s))
      (ap size_of (append_assoc (to_le 2 n) (stat_bytes s) after)
        ∙ size_of_lem n (stat_bytes s ++ after) h.body_fits)
      (decode_lem s h) fits

round_lem :
    (fuel : ℕ) (data' : Bytes) (offset : ℕ) (entries : List Stat) {s : Stat} {end : ℕ}
    → offset < length data'
    → next_entry data' offset ≡ ok (s, end)
    → decode_dir_loop (suc fuel) data' offset entries
      ≡ decode_dir_loop fuel data' end (entries ++ (s ∷ []))
unfolding decode_dir_loop
round_lem fuel data' offset entries h e = ground arith

decode_dir_loop-end :
    (fuel : ℕ) (data' : Bytes) (entries : List Stat)
    → decode_dir_loop fuel data' (length data') entries ≡ some (ok entries)
unfolding decode_dir_loop
decode_dir_loop-end zero data' entries = ground arith
decode_dir_loop-end (suc fuel) data' entries = ground arith

decode_dir_loop-stream :
    (fuel : ℕ) (before : Bytes) (stats entries : List Stat)
    → All IsStat stats
    → length (before ++ stream stats) < 2 ^ 64
    → length (stream stats) ≤ fuel
    → decode_dir_loop fuel (before ++ stream stats) (length before) entries
      ≡ some (ok (entries ++ stats))
decode_dir_loop-stream fuel before [] entries h fits enough =
    rw (append-nil, append-nil) (decode_dir_loop-end fuel before entries)
decode_dir_loop-stream zero before (s ∷ stats) entries h fits enough =
    absurd (omega (arith, length-append (entry_bytes s) (stream stats), length-entry_bytes s))
decode_dir_loop-stream (suc fuel) before (s ∷ stats) entries h fits enough =
    round_lem fuel _ (length before) entries (omega (arith, split, split', length-entry_bytes s))
      (next_entry_lem before (stream stats) s h.0 fits)
    ∙ rw
        (
          ← append_assoc before (entry_bytes s) (stream stats),
          ← length-append before (entry_bytes s),
        )
        (decode_dir_loop-stream fuel (before ++ entry_bytes s) stats (entries ++ (s ∷ [])) h.1
          (rw append_assoc fits) (omega (arith, split', length-entry_bytes s)))
    ∙ ap (λ (l : List Stat). some (ok l)) (append_assoc entries (s ∷ []) stats)
  where
    split : length (before ++ stream (s ∷ stats)) ≡ length before + length (stream (s ∷ stats))
    split = length-append before (stream (s ∷ stats))

    split' : length (stream (s ∷ stats)) ≡ length (entry_bytes s) + length (stream stats)
    split' = length-append (entry_bytes s) (stream stats)

-- The stream of a directory decodes to its stats, in order, where each fits the wire and the whole is
-- below 2 ^ 64 bytes.
pub decode_dir_entries-stream :
    (stats : List Stat)
    → All IsStat stats
    → length (stream stats) < 2 ^ 64
    → decode_dir_entries (stream stats) ≡ some (ok stats)
unfolding decode_dir_entries
decode_dir_entries-stream stats h fits =
    decode_dir_loop-stream (length (stream stats)) [] stats [] h fits (omega arith)
