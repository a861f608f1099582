-- ===== src/Flush.antt =====
-- crates/core/src/flush.rs: the table of live requests. `begin` and `flush` change the table only
-- when they succeed; generations are `u64` and saturate.
pub mod Laws
use r9p.Base.{
  ℕ, ◌+◌, ◌-◌, ◌^◌, min, Bool, true, false, ◌&&◌, List, [], Option, none, some, ◌==◌, if◌then◌else◌,
  Result, ok, err, from_static,
}
use r9p.Base.Map.{Map, lookup, insert, remove, contains_key}
use r9p.Message.{notag}

pub record RequestKey : Type 0 where
  pub tag : ℕ
  pub generation : ℕ

abbrev pub key_eq : RequestKey → RequestKey → Bool
key_eq a b = a.tag == b.tag && a.generation == b.generation

pub data FlushOutcome : Type 0 where
  cancelled : RequestKey → FlushOutcome
  unknown : FlushOutcome

pub record RequestTable : Type 0 where
  pub next_generation : ℕ
  pub live : Map RequestKey

unfoldable pub table_new : RequestTable
table_new = record { next_generation = 0; live = [] }

unfoldable pub is_live : RequestTable → ℕ → Bool
is_live t tag = contains_key tag t.live

-- `saturating_add(1)` on a `u64`.
abbrev pub next_u64 : ℕ → ℕ
next_u64 n = min (n + 1) (2 ^ 64 - 1)

unfoldable pub begin : RequestTable → ℕ → Result (RequestKey × RequestTable)
begin t tag =
    if tag == notag
    then err (from_static "invalid tag")
    else (if contains_key tag t.live
        then err (from_static "duplicate tag")
        else (let key : RequestKey = record { tag = tag; generation = t.next_generation } in
            ok (
              key,
              record { next_generation = next_u64 t.next_generation; live = insert tag key t.live },
            )))

unfoldable pub finish : RequestTable → RequestKey → Bool × RequestTable
finish t key = elim (lookup key.tag t.live) [
  | none ↦ (false, t)
  | some current ↦
      if key_eq current key then (true, record t { live = remove key.tag t.live }) else (false, t)
]

unfoldable pub flush : RequestTable → ℕ → Result (FlushOutcome × RequestTable)
flush t oldtag =
    if oldtag == notag then err (from_static "invalid tag") else elim (lookup oldtag t.live) [
      | none ↦ ok (unknown, t)
      | some key ↦ ok (cancelled key, record t { live = remove oldtag t.live })
    ]

unfoldable pub reset : RequestTable → RequestTable
reset t = record { next_generation = next_u64 t.next_generation; live = [] }
