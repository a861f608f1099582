-- ===== src/Flush/Laws.antt =====
-- The request table: a tag is live at most once, its key is unique to one request, and a stale key
-- finishes nothing.
use r9p.Base.{
  ℕ, ◌+◌, ◌^◌, ◌<◌, ◌≤◌, ◌≡◌, ◌≢◌, false, ok, err, length, none, some, arith, ◌∷◌, [], List,
}
use r9p.Base.Map.{lookup, lookup-insert, lookup-remove}
use r9p.Message.{notag}
use r9p.Flush.{
  RequestKey, RequestTable, FlushOutcome, cancelled, next_u64, begin, finish, flush, reset,
}

-- Every live key is filed under its own tag, with a generation handed out before.
pub record IsTable (t : RequestTable) : Type 0 where
  pub bounded : t.next_generation < 2 ^ 64
  pub entries :
      (j : ℕ) (k : RequestKey)
      → lookup j t.live ≡ some k
      → (k.tag ≡ j) × (next_u64 k.generation ≤ t.next_generation) × (j ≢ notag)

-- Beginning a request on a free tag makes it live under the returned key, and no other tag changes.
pub begin_lem :
    (t : RequestTable) (tag j : ℕ) {key : RequestKey} {t' : RequestTable}
    → begin t tag ≡ ok (key, t')
    → (key.tag ≡ tag)
      × (lookup tag t.live ≡ none)
      × (lookup tag t'.live ≡ some key)
      × (j ≢ tag → lookup j t'.live ≡ lookup j t.live)
unfolding begin
begin_lem t tag j {key = key} {t' = t'} e = (
  ground arith,
  ground arith,
  ground (arith, lookup-insert tag tag key t.live),
  λ ne. ground (arith, lookup-insert tag j key t.live),
)

pub begin-IsTable :
    (t : RequestTable) (tag : ℕ) {key : RequestKey} {t' : RequestTable}
    → IsTable t
    → begin t tag ≡ ok (key, t')
    → IsTable t'
unfolding begin
begin-IsTable t tag {key = key} {t' = t'} h e = record {
  bounded = ground (arith, h.bounded);
  entries = λ j k l. ground (arith, h.entries j k, h.bounded, lookup-insert tag j key t.live);
}

pub finish-IsTable : (t : RequestTable) (key : RequestKey) → IsTable t → IsTable (finish t key).1
unfolding finish
finish-IsTable t key h = record {
  bounded = ground (arith, h.bounded);
  entries = λ j k l. ground (arith, h.entries j k, lookup-remove key.tag j t.live);
}

pub flush-IsTable :
    (t : RequestTable) (tag : ℕ) {o : FlushOutcome} {t' : RequestTable}
    → IsTable t
    → flush t tag ≡ ok (o, t')
    → IsTable t'
unfolding flush
flush-IsTable t tag {o = o} {t' = t'} h e = record {
  bounded = ground (arith, h.bounded);
  entries = λ j k l. ground (arith, h.entries j k, lookup-remove tag j t.live);
}

pub reset-IsTable : (t : RequestTable) → IsTable t → IsTable (reset t)
unfolding reset lookup
reset-IsTable t h = record { bounded = omega (arith, h.bounded); entries = λ j k l. cc }

-- A key that no live request holds and that was handed out before.
pub record IsDead (key : RequestKey) (t : RequestTable) : Type 0 where
  pub issued : key.generation < t.next_generation
  pub gone : lookup key.tag t.live ≢ some key

-- The operations of a connection's lifetime, in any order.
pub data Op : Type 0 where
  begins : ℕ → Op
  finishes : RequestKey → Op
  flushes : ℕ → Op
  resets : Op

unfoldable pub apply : RequestTable → Op → RequestTable
unfolding begin finish flush reset
apply t (begins tag) = elim (begin t tag) [ ok (_, t') ↦ t' | err _ ↦ t ]
apply t (finishes key) = (finish t key).1
apply t (flushes tag) = elim (flush t tag) [ ok (_, t') ↦ t' | err _ ↦ t ]
apply t resets = reset t

unfoldable pub run : RequestTable → List Op → RequestTable
run t [] = t
run t (op ∷ ops) = run (apply t op) ops

apply-IsDead :
    (t : RequestTable) (op : Op) (key : RequestKey)
    → t.next_generation + 1 < 2 ^ 64
    → IsDead key t
    → IsDead key (apply t op)
unfolding apply
apply-IsDead t (begins tag) key room d = record {
  issued = ground (arith, d.issued);
  gone = λ l. ground (
    arith,
    d.issued,
    d.gone,
    lookup-insert tag key.tag (record { tag = tag; generation = t.next_generation }) t.live,
  );
}
apply-IsDead t (finishes other) key room d = record {
  issued = ground (arith, d.issued);
  gone = λ l. ground (arith, d.gone, lookup-remove other.tag key.tag t.live);
}
apply-IsDead t (flushes tag) key room d = record {
  issued = ground (arith, d.issued);
  gone = λ l. ground (arith, d.gone, lookup-remove tag key.tag t.live);
}
apply-IsDead t resets key room d =
    unfold reset lookup in record { issued = omega (arith, d.issued); gone = λ l. cc }

apply_next : (t : RequestTable) (op : Op) → (apply t op).next_generation ≤ t.next_generation + 1
unfolding apply
apply_next t (begins tag) = ground arith
apply_next t (finishes key) = ground arith
apply_next t (flushes tag) = ground arith
apply_next t resets = omega arith

flush_next :
    (t : RequestTable) (tag : ℕ) {o : FlushOutcome} {t' : RequestTable}
    → flush t tag ≡ ok (o, t')
    → t'.next_generation ≡ t.next_generation
unfolding flush
flush_next t tag e = ground arith

pub run-IsDead :
    (t : RequestTable) (ops : List Op) (key : RequestKey)
    → t.next_generation + length ops < 2 ^ 64
    → IsDead key t
    → IsDead key (run t ops)
unfolding run
run-IsDead t [] key room d = d
run-IsDead t (op ∷ ops) key room d =
    run-IsDead (apply t op) ops key (omega (arith, apply_next t op))
      (apply-IsDead t op key (omega arith) d)

pub IsDead-finish : (t : RequestTable) (key : RequestKey) → IsDead key t → finish t key ≡ (false, t)
unfolding finish
IsDead-finish t key d = ground (arith, d.gone)

pub finish-IsDead :
    (t : RequestTable) (key : RequestKey)
    → key.generation < t.next_generation
    → IsDead key (finish t key).1
unfolding finish
finish-IsDead t key issued = record {
  issued = ground (arith, issued);
  gone = λ l. ground (arith, lookup-remove key.tag key.tag t.live);
}

flush-IsDead :
    (t : RequestTable) (tag : ℕ) {key : RequestKey} {t' : RequestTable}
    → IsTable t
    → t.next_generation + 1 < 2 ^ 64
    → flush t tag ≡ ok (cancelled key, t')
    → IsDead key t'
unfolding flush
flush-IsDead t tag {key = key} {t' = t'} h room e = record {
  issued = ground (arith, h.entries tag key);
  gone = λ l. ground (arith, h.entries tag key, lookup-remove tag key.tag t.live);
}

-- Whatever the connection does after a flush cancelled a request, reusing its tag included, the
-- completion of that request is refused and changes nothing; provided the table was well formed and
-- its generations do not reach 2 ^ 64.
pub flushed_never_finishes :
    (t t' : RequestTable) (tag : ℕ) (key : RequestKey) (ops : List Op)
    → IsTable t
    → t.next_generation + length ops + 1 < 2 ^ 64
    → flush t tag ≡ ok (cancelled key, t')
    → finish (run t' ops) key ≡ (false, run t' ops)
flushed_never_finishes t t' tag key ops h room e = IsDead-finish (run t' ops) key (
    run-IsDead t' ops key (omega (arith, flush_next t tag e))
      (flush-IsDead t tag h (omega arith) e))
