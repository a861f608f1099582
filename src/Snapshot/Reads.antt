-- ===== src/Snapshot/Reads.antt =====
-- What a read of a snapshot returns.
use r9p.Base.{
  ℕ, ◌+◌, ◌-◌, ◌^◌, ◌<◌, ◌≤◌, ◌≡◌, refl, sym, ap, ◌∙◌, min, zero, suc, ◌==◌, true, Bool-cases, inl,
  inr, [], ◌∷◌, Bytes, length, take, drop, leb, ◌||◌, arith,
}
use r9p.Snapshot.{read_bytes}

take-min : (n : ℕ) (xs : Bytes) → take (min n (length xs)) xs ≡ take n xs
take-min zero xs = let e : min zero (length xs) ≡ zero = omega arith in rw e refl
take-min (suc n) [] = let e : min (suc n) zero ≡ zero = omega arith in rw e refl
take-min (suc n) (x ∷ xs) =
    let e : min (suc n) (suc (length xs)) ≡ suc (min n (length xs)) = omega arith in
    rw e (ap (◌∷◌ x) (take-min n xs))

length-drop : (n : ℕ) (xs : Bytes) → length (drop n xs) ≡ length xs - n
length-drop zero xs = omega arith
length-drop (suc n) [] = omega arith
length-drop (suc n) (x ∷ xs) = omega (arith, length-drop n xs)

end_lem :
    (offset count size : ℕ)
    → offset + count < 2 ^ 64
    → offset < size
    → min (min (offset + count) (2 ^ 64 - 1)) size - offset ≡ min count (size - offset)
end_lem offset count size h small = omega arith

take_nil : (n : ℕ) → take {A = ℕ} n [] ≡ []
take_nil zero = refl
take_nil (suc n) = refl

drop_past : (n : ℕ) (xs : Bytes) → length xs ≤ n → drop n xs ≡ []
drop_past zero [] h = refl
drop_past zero (x ∷ xs) h = absurd (omega arith)
drop_past (suc n) [] h = refl
drop_past (suc n) (x ∷ xs) h = drop_past n xs (omega arith)

nothing_lem :
    (bytes : Bytes) (offset count : ℕ)
    → (leb (length bytes) offset || count == 0) ≡ true
    → take count (drop offset bytes) ≡ []
nothing_lem bytes offset zero e = refl
nothing_lem bytes offset (suc count) e =
    ap (take (suc count)) (drop_past offset bytes (ground arith)) ∙ take_nil (suc count)

-- A read of a snapshot returns the `count` bytes behind `offset`, as many as there are;
-- where the end of the range is below 2 ^ 64.
pub read_bytes_lem :
    (bytes : Bytes) (offset count : ℕ)
    → offset + count < 2 ^ 64
    → read_bytes bytes offset count ≡ take count (drop offset bytes)
unfolding read_bytes
read_bytes_lem bytes offset count h = elim (Bool-cases (leb (length bytes) offset || count == 0)) [
  | inl nothing ↦ rw (nothing, read_bytes) (sym (nothing_lem bytes offset count nothing))
  | inr something ↦
      rw
        (
          something,
          read_bytes,
          end_lem offset count (length bytes) h (ground arith),
          sym (length-drop offset bytes),
        )
        (take-min count (drop offset bytes))
]
