-- ===== src/Wire/Reads.antt =====
-- What each read takes and returns: `Reads p bs v` says that `p` consumes exactly the bytes `bs`
-- wherever they stand, and returns `v`. The rules follow the shape of the readers.
use r9p.Base.{
  ℕ, zero, suc, ◌+◌, ◌/◌, ◌^◌, ◌<◌, ◌≡◌, refl, ap, ◌∙◌, subst, map, get_or, Bytes, List, [], ◌∷◌,
  ◌++◌, length, length-append, take-append_left, drop-append_left, append-nil, append_assoc, concat,
  All, Result, ok, arith,
}
use r9p.Qid.{Qid}
use r9p.Wire.{
  Cursor, Reader, ◌>>=◌, ◌>>◌, return, require, usize_limit, to_le, from_le, take_bytes, read_u8,
  read_u16, read_u32, read_u64, read_qid, read_string, read_many, push_u8, push_u16, push_u32,
  push_u64, push_qid, push_string,
}
use native.Mathlib.Nat.{add-zero, add_assoc, pow-suc}

pub length-to_le : (w v : ℕ) → length (to_le w v) ≡ w
unfolding to_le
length-to_le zero v = refl
length-to_le (suc w) v = ap suc (length-to_le w (v / 256))

pub from_le-to_le : (w v : ℕ) → v < 256 ^ w → from_le (to_le w v) ≡ v
unfolding to_le from_le
from_le-to_le zero v h = omega arith
from_le-to_le (suc w) v h = omega (arith, from_le-to_le w (v / 256) (omega (arith, pow-suc 256 w)))

abbrev pub at : ℕ → Bytes → Cursor
at q bs = record { position = q; rest = bs }

pub record Reads {ℓ} {A : Type ℓ} (p : Reader A) (bs : Bytes) (v : A) : Type ℓ where
  pub run :
      (q : ℕ) (rest : Bytes)
      → q + length (bs ++ rest) < usize_limit
      → p (at q (bs ++ rest)) ≡ ok (v, at (q + length bs) rest)

pub bind-ok {ℓ κ} :
    {A : Type ℓ} {B : Type κ} (p : Reader A) (f : A → Reader B) (c : Cursor) {v : A} {c' : Cursor}
    → p c ≡ ok (v, c')
    → (p >>= f) c ≡ f v c'
unfolding ◌>>=◌
bind-ok p f c e = rw (e, ◌>>=◌)

pub Reads-bind {ℓ κ} :
    {A : Type ℓ} {B : Type κ} {p : Reader A} (f : A → Reader B) {bs cs : Bytes} {v : A} {w : B}
    → Reads p bs v
    → Reads (f v) cs w
    → Reads (p >>= f) (bs ++ cs) w
unfolding ◌>>=◌
Reads-bind {p = p} f {bs = bs} {cs = cs} {v = v} {w = w} hp hf = record {
  run = λ q rest h.
      let room : q + length (bs ++ (cs ++ rest)) < usize_limit = rw append_assoc at h in
      let room' : q + length bs + length (cs ++ rest) < usize_limit =
        omega (arith, length-append bs (cs ++ rest)) in
      rw (append_assoc, length-append bs cs, ← add_assoc)
        (bind-ok p f _ (hp.run q (cs ++ rest) room) ∙ hf.run (q + length bs) rest room');
}

-- A test that passes, and then a read.
pub Reads-then {ℓ} :
    {B : Type ℓ} {p : Reader (Unit {0})} {k : Reader B} {cs : Bytes} {w : B}
    → Reads p [] tt
    → Reads k cs w
    → Reads (p >> k) cs w
unfolding ◌>>◌
Reads-then {k = k} hp hk = Reads-bind (λ _. k) hp hk

pub Reads-return {ℓ} : {A : Type ℓ} (v : A) → Reads (return v) [] v
unfolding return
Reads-return v = record { run = λ q rest h. rw add-zero }

pub Reads-require {ℓ} : {A : Type ℓ} {r : Result A} {v : A} → r ≡ ok v → Reads (require r) [] v
unfolding require
Reads-require {r = r} {v = v} e = record { run = λ q rest h. rw (e, add-zero) }

pub take_bytes-Reads : (bs : Bytes) → Reads (take_bytes (length bs)) bs bs
unfolding take_bytes
take_bytes-Reads bs = record {
  run = λ q rest h.
      ground (arith, length-append bs rest, take-append_left bs rest, drop-append_left bs rest);
}

pub Reads-map {ℓ κ} :
    {A : Type ℓ} {B : Type κ} {p : Reader A} (g : A → B) {bs : Bytes} {v : A}
    → Reads p bs v
    → Reads (p >>= λ x. return (g x)) bs (g v)
Reads-map {p = p} g {bs = bs} {v = v} hp =
    subst (λ cs. Reads (p >>= λ x. return (g x)) cs (g v)) (append-nil bs)
      (Reads-bind (λ x. return (g x)) hp (Reads-return (g v)))

-- A number of `w` bytes.
read_le-Reads :
    (w v : ℕ) → v < 256 ^ w → Reads (take_bytes w >>= λ bytes. return (from_le bytes)) (to_le w v) v
read_le-Reads w v h =
    subst (λ x. Reads (take_bytes w >>= λ bytes. return (from_le bytes)) (to_le w v) x)
      (from_le-to_le w v h)
      (Reads-map from_le (
        subst (λ n. Reads (take_bytes n) (to_le w v) (to_le w v)) (length-to_le w v)
          (take_bytes-Reads (to_le w v))))

pub read_u8-Reads : (v : ℕ) → Reads read_u8 (v ∷ []) v
unfolding read_u8
read_u8-Reads v = Reads-map (λ bytes. get_or bytes 0 0) (take_bytes-Reads (v ∷ []))

pub read_u16-Reads : (v : ℕ) → v < 2 ^ 16 → Reads read_u16 (to_le 2 v) v
unfolding read_u16
read_u16-Reads v h = read_le-Reads 2 v h

pub read_u32-Reads : (v : ℕ) → v < 2 ^ 32 → Reads read_u32 (to_le 4 v) v
unfolding read_u32
read_u32-Reads v h = read_le-Reads 4 v h

pub read_u64-Reads : (v : ℕ) → v < 2 ^ 64 → Reads read_u64 (to_le 8 v) v
unfolding read_u64
read_u64-Reads v h = read_le-Reads 8 v h

-- What the wire holds for a string and for a qid.
abbrev pub string_bytes : Bytes → Bytes
string_bytes s = to_le 2 (length s) ++ s

abbrev pub qid_bytes : Qid → Bytes
qid_bytes q = concat ((q.qtype ∷ []) ∷ to_le 4 q.version ∷ to_le 8 q.path ∷ [])

pub read_string-Reads : (s : Bytes) → length s < 2 ^ 16 → Reads read_string (string_bytes s) s
unfolding read_string
read_string-Reads s h = Reads-bind _ (read_u16-Reads (length s) h) (take_bytes-Reads s)

pub record IsQid (q : Qid) : Type 0 where
  pub qtype_fits : q.qtype < 2 ^ 8
  pub version_fits : q.version < 2 ^ 32
  pub path_fits : q.path < 2 ^ 64

pub read_qid-Reads : (q : Qid) → IsQid q → Reads read_qid (qid_bytes q) q
unfolding read_qid
read_qid-Reads q h = Reads-bind _ (read_u8-Reads q.qtype) (
    Reads-bind _ (read_u32-Reads q.version h.version_fits)
      (Reads-bind _ (read_u64-Reads q.path h.path_fits) (Reads-return q)))

pub read_many-Reads {ℓ κ} :
    {A : Type ℓ} (P : A → Type κ) (read : Reader A) (write : A → Bytes)
    → ((a : A) → P a → Reads read (write a) a)
    → (xs : List A) → All P xs
    → Reads (read_many read (length xs)) (concat (map write xs)) xs
unfolding read_many
read_many-Reads P read write each [] h = Reads-return []
read_many-Reads P read write each (x ∷ xs) h =
    Reads-bind _ (each x h.0) (Reads-map (λ ys. x ∷ ys) (read_many-Reads P read write each xs h.1))

-- What the writers append.
pub push_qid_lem : (out : Bytes) (q : Qid) → push_qid out q ≡ out ++ qid_bytes q
unfolding push_qid push_u8 push_u32 push_u64
push_qid_lem out q = simp (append_assoc, append-nil)

pub push_string_lem :
    (out s : Bytes) → length s < 2 ^ 16 → push_string out s ≡ ok (out ++ string_bytes s)
unfolding push_string push_u16
push_string_lem out s h = ground (arith, append_assoc out (to_le 2 (length s)) s)

-- A read of everything that is left.
pub Reads-all {ℓ} :
    {A : Type ℓ} {p : Reader A} {bs : Bytes} {v : A} (q : ℕ)
    → Reads p bs v
    → q + length bs < usize_limit
    → p (at q bs) ≡ ok (v, at (q + length bs) [])
Reads-all {p = p} {bs = bs} {v = v} q r h =
    subst (λ cs. p (at q cs) ≡ ok (v, at (q + length bs) [])) (append-nil bs)
      (r.run q [] (rw append-nil h))
