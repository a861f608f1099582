-- ===== src/Tests/Client.antt =====
-- The client: tags, the invariant, replies, chunks and records.
use r9p.Base.{
  ℕ, zero, suc, ◌+◌, ◌^◌, ◌<◌, ◌≤◌, ◌≡◌, ◌≢◌, refl, sym, ap, ◌∙◌, true, Bytes, [], ◌∷◌, ◌++◌,
  append_assoc, length, take, none, ok, err, from_static, arith, take-append-drop, append-nil, min,
  drop,
}
use r9p.Base.Stateful.{Stateful}
use r9p.Base.Run.{always}
use r9p.Base.Map.{Map, lookup, contains_key}
use r9p.Message.{RMessage, rtag}
use r9p.Codec.{Variant}
use r9p.Flush.{RequestKey, is_live}
use r9p.Client.{Client, client_new, alloc_tag}
use r9p.Client.Calls.{Call, start, starts, receives, versions, abandons, run}
use r9p.Client.Tags.{IsFree, behind, alloc_tag_exhausted}
use r9p.Client.Starts.{Starts, start-Starts}
use r9p.Client.Invariant.{IsClient, run-IsClient}
use r9p.Client.Settles.{Settled, receive-Settled}
use r9p.Client.Support.{write_in_chunks, read_delimited_with}
use r9p.Client.Chunks.{IsStore, Writes, write_in_chunks-Writes}
use r9p.Client.Delimited.{IsFile, Finds, read_delimited_with-Finds}

abbrev pub digits : ℕ → Bytes
digits n = b'0' ∷ []

-- A version request, an open, the reply to it, and a flush of a tag that is given up.
run-IsClient_example : IsClient (
    run digits client_new (
      versions 8192 Variant.plain
      ∷ starts (Call.open_ 1 0)
      ∷ receives (RMessage.clunk 0)
      ∷ starts (Call.flush 0)
      ∷ abandons 1
      ∷ []))
run-IsClient_example = run-IsClient digits (
    versions 8192 Variant.plain
    ∷ starts (Call.open_ 1 0)
    ∷ receives (RMessage.clunk 0)
    ∷ starts (Call.flush 0)
    ∷ abandons 1
    ∷ [])

start-Starts_example : Starts client_new (start (Call.walk 1 ((b'a' ∷ []) ∷ [])) client_new)
unfolding client_new
start-Starts_example = start-Starts (Call.walk 1 ((b'a' ∷ []) ∷ [])) client_new (omega arith)

abbrev pub waiting : Client
waiting = record {
  msize = 8192;
  version = [];
  requested_msize = none;
  next_tag = 1;
  next_fid = 2;
  pending = record { next_generation = 1; live = (0, record { tag = 0; generation = 0 }) ∷ [] };
  flush_targets = [];
}

receive-Settled_example : Settled digits (RMessage.write 0 3) waiting
unfolding rtag lookup
receive-Settled_example =
    receive-Settled digits (RMessage.write 0 3) waiting {key = record { tag = 0; generation = 0 }}
      tt (omega arith) tt refl

-- The tags below `n` are live.
full : ℕ → Map RequestKey
full zero = []
full (suc n) = (n, record { tag = n; generation = n }) ∷ full n

full_lem : (n tag : ℕ) → tag < n → contains_key tag (full n) ≡ true
unfolding lookup full
full_lem zero tag h = absurd (omega arith)
full_lem (suc n) tag h = ground (arith, full_lem n tag)

-- A client with the given requests pending, whose next tag is the last.
-- The tags below 65534 are live, and the next tag is the last, so that 65534 is the one just behind it.
abbrev crowded : Client
crowded = record waiting {
  next_tag = 65535;
  pending = record { next_generation = 0; live = full 65534 };
}

crowded_lem : (tag : ℕ) → tag < 2 ^ 16 → tag ≢ behind crowded → ¬ IsFree crowded tag
unfolding is_live
crowded_lem tag small ne free =
    absurd (ground (arith, free.ordinary, free.idle, full_lem 65534 tag))

alloc_tag_exhausted_example : (alloc_tag crowded).0 ≡ err (from_static "duplicate tag")
alloc_tag_exhausted_example = alloc_tag_exhausted crowded (omega arith) crowded_lem

-- A file that can only be extended, and a server that writes at most two bytes at a time.
abbrev put_end : ℕ → Bytes → Bytes → Bytes
put_end offset new old = old ++ new

abbrev write_two : ℕ → Bytes → Stateful Bytes ℕ
write_two offset chunk old = (ok (length (take 2 chunk)), old ++ take 2 chunk)

two_lem : (chunk : Bytes) → take (length (take 2 chunk)) chunk ≡ take 2 chunk
two_lem [] = refl
two_lem (x ∷ []) = refl
two_lem (x ∷ y ∷ rest) = refl

two_le : (chunk : Bytes) → length (take 2 chunk) ≤ length chunk
two_le [] = omega arith
two_le (x ∷ []) = omega arith
two_le (x ∷ y ∷ rest) = omega arith

write_two-IsStore : IsStore put_end write_two
write_two-IsStore = record {
  put_nil = λ offset s. append-nil s;
  put_append = λ offset xs ys s. sym (append_assoc s xs ys);
  honest = λ offset chunk s n e. (honest_le chunk n e, honest_eq chunk s n e);
}
  where
    honest_n :
        (chunk : Bytes) (n : ℕ) → ok (length (take 2 chunk)) ≡ ok n → length (take 2 chunk) ≡ n
    honest_n chunk n e = cc

    honest_le : (chunk : Bytes) (n : ℕ) → ok (length (take 2 chunk)) ≡ ok n → n ≤ length chunk
    honest_le chunk n e = omega (arith, two_le chunk, honest_n chunk n e)

    honest_eq :
        (chunk s : Bytes) (n : ℕ)
        → ok (length (take 2 chunk)) ≡ ok n
        → s ++ take 2 chunk ≡ s ++ take n chunk
    honest_eq chunk s n e =
        ap (◌++◌ s) (sym (two_lem chunk) ∙ ap (λ (m : ℕ). take m chunk) (honest_n chunk n e))

abbrev payload : Bytes
payload = 1 ∷ 2 ∷ 3 ∷ 4 ∷ 5 ∷ []

write_in_chunks-Writes_example :
    Writes put_end 0 payload 0 [] (write_in_chunks (λ o c. always (write_two o c)) 2 0 payload [])
write_in_chunks-Writes_example =
    write_in_chunks-Writes put_end write_two write_two-IsStore 2 0 payload []

-- A server of the bytes 9 and 10 that counts its reads, and a record ended by 10.
abbrev two_bytes : Bytes
two_bytes = 9 ∷ 10 ∷ []

abbrev read_two : ℕ → ℕ → Stateful ℕ Bytes
read_two offset n s = (ok (take (min n 1) (drop offset two_bytes)), s + 1)

drop_before : (before after : Bytes) → drop (length before) (before ++ after) ≡ after
drop_before [] after = refl
drop_before (x ∷ before) after = drop_before before after

read_two-IsFile : IsFile two_bytes read_two
read_two-IsFile = record {
  honest = λ before after n s payload' split e. prefix before after n payload' split e;
}
  where
    prefix :
        (before after : Bytes) (n : ℕ) (payload' : Bytes)
        → two_bytes ≡ before ++ after
        → ok (take (min n 1) (drop (length before) two_bytes)) ≡ ok payload'
        → (rest : Bytes) × (after ≡ payload' ++ rest)
    prefix before after n payload' split e = (
      drop (min n 1) after,
      sym (take-append-drop (min n 1) after)
          ∙ ap (λ (xs : Bytes). xs ++ drop (min n 1) after)
              (ap (take (min n 1))
                  (sym (drop_before before after) ∙ ap (drop (length before)) (sym split))
                ∙ (cc)),
    )

read_delimited_with-Finds_example :
    Finds 10 two_bytes 5 [] (read_delimited_with (λ o n. always (read_two o n)) 0 5 10 0)
read_delimited_with-Finds_example =
    read_delimited_with-Finds two_bytes read_two read_two-IsFile 10 [] two_bytes 5 0 refl
