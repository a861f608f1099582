-- ===== src/Client/Chunks.antt =====
-- A write in chunks is one write of what it reports as written.
use r9p.Base.{
  ℕ, zero, suc, ◌+◌, ◌-◌, ◌<◌, ◌≤◌, ◌≡◌, inl, inr, refl, sym, ap, subst, ◌∙◌, Bytes, [], ◌∷◌, ◌++◌,
  Option, some, length, take, drop, Bool-cases, Result-cases, ltb, ◌==◌, Error, Result, ok, err,
  length-take, arith,
}
use r9p.Base.Stateful.{Stateful}
use r9p.Base.Run.{always}
use r9p.Client.Support.{
  checked_write_count, checked_advance_offset, write_round, write_loop, write_in_chunks,
}

length-drop : (n : ℕ) (xs : Bytes) → length (drop n xs) ≡ length xs - n
length-drop zero xs = omega arith
length-drop (suc n) [] = omega arith
length-drop (suc n) (x ∷ xs) = omega (arith, length-drop n xs)

take-add : (n k : ℕ) (xs : Bytes) → take (n + k) xs ≡ take n xs ++ take k (drop n xs)
take-add zero k xs = let e : 0 + k ≡ k = omega arith in rw e
take-add (suc n) zero [] = let e : suc n + 0 ≡ suc n = omega arith in rw e
take-add (suc n) (suc k) [] = let e : suc n + suc k ≡ suc (n + suc k) = omega arith in rw e
take-add (suc n) k (x ∷ xs) =
    let e : suc n + k ≡ suc (n + k) = omega arith in rw e (ap (◌∷◌ x) (take-add n k xs))

take-take : (n k : ℕ) (xs : Bytes) → n ≤ length (take k xs) → take n (take k xs) ≡ take n xs
take-take zero k xs h = refl
take-take (suc n) zero xs h = absurd (omega arith)
take-take (suc n) (suc k) [] h = refl
take-take (suc n) (suc k) (x ∷ xs) h = ap (◌∷◌ x) (take-take n k xs (omega arith))

module _ {S : Type 0} where
  -- A store that a write changes by a prefix of its bytes, as long as the count that it reports.
  pub record IsStore (put : ℕ → Bytes → S → S) (write_once : ℕ → Bytes → Stateful S ℕ)
      : Type 0 where
    pub put_nil : (offset : ℕ) (s : S) → put offset [] s ≡ s
    pub put_append :
        (offset : ℕ) (xs ys : Bytes) (s : S)
        → put offset (xs ++ ys) s ≡ put (offset + length xs) ys (put offset xs s)
    pub honest :
        (offset : ℕ) (chunk : Bytes) (s : S) (n : ℕ)
        → (write_once offset chunk s).0 ≡ ok n
        → (n ≤ length chunk) × ((write_once offset chunk s).1 ≡ put offset (take n chunk) s)

  -- The write fails, or reports a count of bytes, and the store has that prefix of the payload.
  pub data Writes (put : ℕ → Bytes → S → S) (offset : ℕ) (payload : Bytes) (total : ℕ) (s : S)
      : Option (Result ℕ × S) → Type 0 where
    fails : (e : Error) (s' : S) → Writes put offset payload total s (some (err e, s'))
    writes :
        (written count : ℕ) (s' : S)
        → written ≤ length payload
        → count ≡ total + written
        → s' ≡ put offset (take written payload) s
        → Writes put offset payload total s (some (ok count, s'))

write_round_ok :
    (offset : ℕ) (chunk : Bytes) (total : ℕ) (answer : Result ℕ) (count total' offset' : ℕ)
    → write_round offset chunk total answer ≡ ok (count, total', offset')
    → (answer ≡ ok count)
      × (0 < count)
      × (count ≤ length chunk)
      × (total' ≡ total + count)
      × (offset' ≡ offset + count)
unfolding write_round checked_write_count checked_advance_offset
write_round_ok offset chunk total (err e) count total' offset' h = cc
write_round_ok offset chunk total (ok n) count total' offset' h = ground arith

module _ {S : Type 0} (put : ℕ → Bytes → S → S) (write_once : ℕ → Bytes → Stateful S ℕ)
    (store : IsStore put write_once) where
  -- What a later round writes, after `n` bytes.
  Writes-step :
      (offset total n : ℕ) (payload : Bytes) (s : S) (r : Option (Result ℕ × S))
      → n ≤ length payload
      → Writes put (offset + n) (drop n payload) (total + n) (put offset (take n payload) s) r
      → Writes put offset payload total s r
  Writes-step offset total n payload s _ h (Writes.fails e s') = Writes.fails e s'
  Writes-step offset total n payload s _ h (Writes.writes written count s' le same later) =
      Writes.writes (n + written) count s' (omega (arith, length-drop n payload)) (omega arith) (
        later
        ∙ ap
            (λ (m : ℕ).
              put (offset + m) (take written (drop n payload)) (put offset (take n payload) s))
            (let e : n ≡ length (take n payload) = omega (arith, length-take n payload) in e)
        ∙ sym (store.put_append offset (take n payload) (take written (drop n payload)) s)
        ∙ ap (λ xs. put offset xs s) (sym (take-add n written payload)))

  -- What one round has written.
  round_lem :
      (most offset total n total' offset' : ℕ) (payload : Bytes) (s : S)
      → write_round offset (take most payload) total (write_once offset (take most payload) s).0
        ≡ ok (n, total', offset')
      → (0 < n)
        × (n ≤ length payload)
        × (total' ≡ total + n)
        × (offset' ≡ offset + n)
        × ((write_once offset (take most payload) s).1 ≡ put offset (take n payload) s)
  round_lem most offset total n total' offset' payload s e =
      let chunk = take most payload in
      let (answered, positive, within, et, eo) =
        write_round_ok offset chunk total (write_once offset chunk s).0 n total' offset' e in
      let (_, changed) = store.honest offset chunk s n answered in
      (
        positive,
        omega (arith, length-take most payload),
        et,
        eo,
        changed ∙ ap (λ xs. put offset xs s) (take-take n most payload within),
      )

  write_loop-Writes :
      (most fuel offset total : ℕ) (payload : Bytes) (s : S)
      → length payload < fuel
      → Writes put offset payload total s
          (write_loop (λ o c. always (write_once o c)) most fuel offset payload total s)
  unfolding write_loop
  write_loop-Writes most zero offset total payload s h = absurd (omega arith)
  write_loop-Writes most (suc fuel) offset total payload s h =
      elim (Bool-cases (length payload == 0)) [
        | inl done ↦
            rw (done, write_loop)
              (Writes.writes 0 total s (omega arith) (omega arith) (sym (store.put_nil offset s)))
        | inr more ↦
            elim (Result-cases (
              write_round offset (take most payload) total
                (write_once offset (take most payload) s).0)) [
                  | inr (e, bad) ↦ rw (more, bad, write_loop) (Writes.fails e _)
                  | inl ((n, total', offset'), good) ↦
                      let (positive, within, et, eo, changed) =
                        round_lem most offset total n total' offset' payload s good in
                      elim (Bool-cases (ltb n (length (take most payload)))) [
                        | inl short ↦
                            rw (more, good, short, write_loop)
                              (Writes.writes n total' _ within et changed)
                        | inr full ↦
                            rw (more, good, full, write_loop, changed, et, eo)
                              (Writes-step offset total n payload s _ within (
                                write_loop-Writes most fuel (offset + n) (total + n)
                                  (drop n payload) (put offset (take n payload) s)
                                  (omega (arith, length-drop n payload))))
                      ]
                ]
      ]

  -- A write in chunks to a store ends; when it succeeds it has put exactly the prefix of the payload
  -- that it reports, as one write of that prefix would, whatever the size of a chunk.
  pub write_in_chunks-Writes :
      (most offset : ℕ) (payload : Bytes) (s : S)
      → Writes put offset payload 0 s
          (write_in_chunks (λ o c. always (write_once o c)) most offset payload s)
  unfolding write_in_chunks
  write_in_chunks-Writes most offset payload s = elim (Bool-cases (length payload == 0)) [
    | inr more ↦
        rw (more, write_in_chunks)
          (write_loop-Writes most (length payload + 1) offset 0 payload s (omega arith))
    | inl empty ↦ elim (Result-cases (write_once offset payload s).0) [
      | inr (e, bad) ↦
          rw (empty, write_in_chunks)
            (subst (λ r. Writes put offset payload 0 s (some (r, (write_once offset payload s).1)))
              (sym bad) (Writes.fails e _))
      | inl (n, good) ↦
          rw (empty, write_in_chunks)
            (subst (λ r. Writes put offset payload 0 s (some (r, (write_once offset payload s).1)))
              (sym good)
              (Writes.writes n n _ (store.honest offset payload s n good).0 (omega arith)
                (store.honest offset payload s n good).1))
    ]
  ]
