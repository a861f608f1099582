-- ===== src/Client/Tags.antt =====
-- Which tag `alloc_tag` hands out, and when it finds none.
use r9p.Base.{
  ℕ, zero, suc, ◌+◌, ◌-◌, ◌%◌, ◌^◌, ◌<◌, ◌≡◌, ◌≢◌, ◌⊎◌, inl, inr, refl, sym, ap, subst, ◌∙◌, true,
  false, Bool-cases, ◌==◌, Result, ok, err, from_static, arith,
}
use r9p.Base.Map.{insert}
use r9p.Message.{notag}
use r9p.Flush.{next_u64, is_live, begin}
use r9p.Client.{Client, next_u16, begin_tag, alloc_rounds, alloc_tag}

-- A tag that a new request may have.
pub record IsFree (c : Client) (tag : ℕ) : Type 0 where
  pub ordinary : (tag == notag) ≡ false
  pub idle : is_live c.pending tag ≡ false

-- The client once the tag is begun.
abbrev pub begun : ℕ → Client → Client
begun tag c = record c {
  pending = record {
    next_generation = next_u64 c.pending.next_generation;
    live = insert tag (record { tag = tag; generation = c.pending.next_generation }) c.pending.live;
  };
}

-- The tag that the loop tries after `d` rounds.
abbrev pub ahead : Client → ℕ → ℕ
ahead c d = (c.next_tag + d) % 2 ^ 16

-- The tag just behind the next one, which the loop never reaches.
abbrev pub behind : Client → ℕ
behind c = (c.next_tag + 65535) % 2 ^ 16

abbrev pub stepped : Client → Client
stepped c = record c { next_tag = next_u16 c.next_tag }

begin_tag_lem : (tag : ℕ) (c : Client) → IsFree c tag → begin_tag tag c ≡ (ok tag, begun tag c)
unfolding begin_tag begin is_live
begin_tag_lem tag c h = rw (h.ordinary, h.idle, begin_tag) refl

-- One round, at a tag that is free and at one that is not.
pub round_free :
    (n : ℕ) (c : Client)
    → IsFree c c.next_tag
    → alloc_rounds (suc n) c ≡ (ok c.next_tag, begun c.next_tag (stepped c))
unfolding alloc_rounds
round_free n c h =
    rw (h.ordinary, h.idle, alloc_rounds)
      (begin_tag_lem c.next_tag (stepped c) (record { ordinary = h.ordinary; idle = h.idle }))

pub round_taken :
    (n : ℕ) (c : Client)
    → ((c.next_tag == notag) ≡ true) ⊎ (is_live c.pending c.next_tag ≡ true)
    → alloc_rounds (suc n) c ≡ alloc_rounds n (stepped c)
unfolding alloc_rounds
round_taken n c (inl reserved) = rw (reserved, alloc_rounds) refl
round_taken n c (inr live) = elim (Bool-cases (c.next_tag == notag)) [
  | inl reserved ↦ rw (reserved, alloc_rounds) refl
  | inr ordinary ↦ rw (ordinary, live, alloc_rounds) refl
]

pub IsFree-cases :
    (c : Client) (tag : ℕ)
    → IsFree c tag ⊎ (((tag == notag) ≡ true) ⊎ (is_live c.pending tag ≡ true))
IsFree-cases c tag = elim (Bool-cases (tag == notag)) [
  | inl reserved ↦ inr (inl reserved)
  | inr ordinary ↦ elim (Bool-cases (is_live c.pending tag)) [
    | inl live ↦ inr (inr live)
    | inr idle ↦ inl (record { ordinary = ordinary; idle = idle })
  ]
]

-- A tag that was free is handed out and begun; nothing else changes but where the search goes on.
pub record Allocates (c : Client) (r : Result ℕ × Client) : Type 0 where
  pub tag : ℕ
  pub free : IsFree c tag
  pub small : tag < 2 ^ 16
  pub outcome : r ≡ (ok tag, begun tag (record c { next_tag = next_u16 tag }))

taken_lem :
    (c : Client) (tag : ℕ)
    → ((tag == notag) ≡ true) ⊎ (is_live c.pending tag ≡ true)
    → ¬ IsFree c tag
taken_lem c tag (inl reserved) h = absurd (ground (arith, reserved, h.ordinary))
taken_lem c tag (inr live) h = absurd (ground (arith, live, h.idle))

ahead-stepped : (c : Client) (d : ℕ) → ahead (stepped c) d ≡ ahead c (suc d)
ahead-stepped c d = omega arith

ahead_zero : (c : Client) → c.next_tag < 2 ^ 16 → ahead c 0 ≡ c.next_tag
ahead_zero c small = omega arith

pub step_Allocates :
    (n : ℕ) (c : Client)
    → ((c.next_tag == notag) ≡ true) ⊎ (is_live c.pending c.next_tag ≡ true)
    → Allocates (stepped c) (alloc_rounds n (stepped c))
    → Allocates c (alloc_rounds (suc n) c)
step_Allocates n c taken later = record {
  tag = later.tag;
  free = record { ordinary = later.free.ordinary; idle = later.free.idle };
  small = later.small;
  outcome = round_taken n c taken ∙ later.outcome;
}

alloc_rounds-Allocates :
    (n d : ℕ) (c : Client)
    → c.next_tag < 2 ^ 16
    → d < n
    → IsFree c (ahead c d)
    → Allocates c (alloc_rounds n c)
alloc_rounds-Allocates zero d c small h free = absurd (omega arith)
alloc_rounds-Allocates (suc n) zero c small h free =
    let here = subst (IsFree c) (ahead_zero c small) free in
    record { tag = c.next_tag; free = here; small = small; outcome = round_free n c here }
alloc_rounds-Allocates (suc n) (suc d) c small h free = elim (IsFree-cases c c.next_tag) [
  | inl here ↦ record {
    tag = c.next_tag;
    free = here;
    small = small;
    outcome = round_free n c here;
  }
  | inr taken ↦
      let free' = subst (IsFree c) (sym (ahead-stepped c d)) free in
      step_Allocates n c taken (
        alloc_rounds-Allocates n d (stepped c) (omega arith) (omega arith)
          (record { ordinary = free'.ordinary; idle = free'.idle }))
]

alloc_rounds_exhausted :
    (n : ℕ) (c : Client)
    → c.next_tag < 2 ^ 16
    → ((d : ℕ) → d < n → ¬ IsFree c (ahead c d))
    → (alloc_rounds n c).0 ≡ err (from_static "duplicate tag")
unfolding alloc_rounds
alloc_rounds_exhausted zero c small h = refl
alloc_rounds_exhausted (suc n) c small h = elim (IsFree-cases c c.next_tag) [
  | inl free ↦ absurd (h 0 (omega arith) (subst (IsFree c) (sym (ahead_zero c small)) free))
  | inr taken ↦
      ap (λ p. p.0) (round_taken n c taken)
      ∙ alloc_rounds_exhausted n (stepped c) (omega arith) (λ d lt free. h (suc d) (omega arith) (
          subst (IsFree c) (ahead-stepped c d)
            (record { ordinary = free.ordinary; idle = free.idle })))
]

distance :
    (next tag : ℕ)
    → next < 2 ^ 16
    → tag < 2 ^ 16
    → (next + (tag + 2 ^ 16 - next) % 2 ^ 16) % 2 ^ 16 ≡ tag
distance next tag h small = omega arith

distance_short :
    (next tag : ℕ)
    → next < 2 ^ 16
    → tag < 2 ^ 16
    → tag ≢ (next + 65535) % 2 ^ 16
    → (tag + 2 ^ 16 - next) % 2 ^ 16 < 2 ^ 16 - 1
distance_short next tag h small ne = omega arith

never_behind :
    (next d : ℕ) → next < 2 ^ 16 → d < 2 ^ 16 - 1 → (next + d) % 2 ^ 16 ≢ (next + 65535) % 2 ^ 16
never_behind next d h small = omega arith

-- With a free tag other than the one just behind the next, `alloc_tag` hands out a free tag and begins
-- it; nothing else changes but where the next search starts.
pub alloc_tag-Allocates :
    (c : Client) (tag : ℕ)
    → c.next_tag < 2 ^ 16
    → tag < 2 ^ 16
    → IsFree c tag
    → tag ≢ behind c
    → Allocates c (alloc_tag c)
unfolding alloc_tag
alloc_tag-Allocates c tag room small free ne =
    let d : ℕ = (tag + 2 ^ 16 - c.next_tag) % 2 ^ 16 in
    alloc_rounds-Allocates (2 ^ 16 - 1) d c room (distance_short c.next_tag tag room small ne)
      (subst (IsFree c) (sym (distance c.next_tag tag room small)) free)

-- The loop is one round short: where no tag is free but the one just behind the next, `alloc_tag` fails
-- as if none were.
pub alloc_tag_exhausted :
    (c : Client)
    → c.next_tag < 2 ^ 16
    → ((tag : ℕ) → tag < 2 ^ 16 → tag ≢ behind c → ¬ IsFree c tag)
    → (alloc_tag c).0 ≡ err (from_static "duplicate tag")
unfolding alloc_tag
alloc_tag_exhausted c room none_free =
    alloc_rounds_exhausted (2 ^ 16 - 1) c room
      (λ d h. none_free (ahead c d) (omega arith) (never_behind c.next_tag d room h))
