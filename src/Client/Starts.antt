-- ===== src/Client/Starts.antt =====
-- What starting an operation does: a fresh tag, or nothing but a moved counter.
use r9p.Base.{
  ℕ, zero, suc, ◌-◌, ◌^◌, ◌<◌, ◌≡◌, ◌⊎◌, inl, inr, refl, sym, subst, ◌∙◌, Bool-cases, ◌==◌, Result,
  ok, err, from_static, Error, arith,
}
use r9p.Base.Stateful.{Stateful, ◌>>=◌, ◌>>◌, return, lift, modify, bind_at}
use r9p.Message.{TMessage, notag, ttag}
use r9p.Client.{Client, Op, next_u16, alloc_rounds, alloc_tag, alloc_fid}
use r9p.Client.Ops
use r9p.Client.Calls.{Call, start}
use r9p.Client.Tags.{
  IsFree, IsFree-cases, begun, stepped, Allocates, round_free, round_taken, step_Allocates,
}

-- No tag was found.
pub record Refuses (c : Client) (r : Result ℕ × Client) : Type 0 where
  pub next : ℕ
  pub small : next < 2 ^ 16
  pub outcome : r ≡ (err (from_static "duplicate tag"), record c { next_tag = next })

alloc_rounds-cases :
    (n : ℕ) (c : Client)
    → c.next_tag < 2 ^ 16
    → Allocates c (alloc_rounds n c) ⊎ Refuses c (alloc_rounds n c)
unfolding alloc_rounds
alloc_rounds-cases zero c small = inr (record { next = c.next_tag; small = small; outcome = refl })
alloc_rounds-cases (suc n) c small = elim (IsFree-cases c c.next_tag) [
  | inl here ↦
      inl (record { tag = c.next_tag; free = here; small = small; outcome = round_free n c here })
  | inr taken ↦ elim (alloc_rounds-cases n (stepped c) (omega arith)) [
    | inl later ↦ inl (step_Allocates n c taken later)
    | inr failed ↦ inr (record {
      next = failed.next;
      small = failed.small;
      outcome = round_taken n c taken ∙ failed.outcome;
    })
  ]
]

-- The client once the tag is begun and the search moved on.
abbrev pub taken : ℕ → Client → Client
taken tag c = begun tag (record c { next_tag = next_u16 tag })

-- To know what starts with a tag, know it for each tag that was free, and for none.
pub alloc_bind :
    {A : Type 0} (P : Result A × Client → Type 0) (k : ℕ → Stateful Client A) (c : Client)
    → c.next_tag < 2 ^ 16
    → ((next : ℕ)
        → next < 2 ^ 16
        → P (err (from_static "duplicate tag"), record c { next_tag = next }))
    → ((tag : ℕ) → IsFree c tag → tag < 2 ^ 16 → P (k tag (taken tag c)))
    → P ((alloc_tag >>= k) c)
unfolding alloc_tag
alloc_bind P k c small refused granted = elim (alloc_rounds-cases (2 ^ 16 - 1) c small) [
  | inl a ↦ subst P (sym (bind_at alloc_tag k c a.outcome)) (granted a.tag a.free a.small)
  | inr r ↦ subst P (sym (bind_at alloc_tag k c r.outcome)) (refused r.next r.small)
]

-- An operation starts under a tag that was free, which its message bears; or nothing is pending that
-- was not.
pub data Starts (c : Client) : Result Op × Client → Type 0 where
  begins :
      (op : Op) (c' : Client)
      → IsFree c op.tag
      → ttag op.message ≡ op.tag
      → c'.pending ≡ (begun op.tag c).pending
      → Starts c (ok op, c')
  refuses :
      (e : Error) (c' : Client)
      → c'.pending ≡ c.pending
      → c'.flush_targets ≡ c.flush_targets
      → Starts c (err e, c')

Starts-alloc :
    (k : ℕ → Stateful Client Op) (c : Client)
    → c.next_tag < 2 ^ 16
    → ((tag : ℕ) → IsFree c tag → Starts c (k tag (taken tag c)))
    → Starts c ((alloc_tag >>= k) c)
Starts-alloc k c small granted =
    alloc_bind (Starts c) k c small (λ next _. refuses _ _ refl refl)
      (λ tag free _. granted tag free)

Starts-on_fid :
    (fid : ℕ) (message : ℕ → TMessage) (c : Client)
    → ((tag : ℕ) → ttag (message tag) ≡ tag)
    → c.next_tag < 2 ^ 16
    → Starts c (Ops.on_fid fid message c)
unfolding return
Starts-on_fid fid message c same small =
    Starts-alloc _ c small (λ tag free. begins _ _ free (same tag) refl)

-- Every operation starts under a tag that was free, which its message bears and which alone is added
-- to the pending requests; or it fails, and what is pending is as before.
pub start-Starts : (call : Call) (c : Client) → c.next_tag < 2 ^ 16 → Starts c (start call c)
unfolding start Ops.attach Ops.walk Ops.open_ Ops.read Ops.write Ops.create Ops.clunk
    Ops.remove_file Ops.stat Ops.wstat Ops.rename_at Ops.referrals Ops.flush_op return modify lift
    alloc_fid ◌>>◌ ◌>>=◌ ttag
start-Starts (Call.attach uname aname) c small =
    Starts-alloc _ c small (λ tag free. begins _ _ free refl refl)
start-Starts (Call.walk fid wnames) c small =
    Starts-alloc _ c small (λ tag free. begins _ _ free refl refl)
start-Starts (Call.open_ fid mode) c small = Starts-on_fid fid _ c (λ tag. refl) small
start-Starts (Call.read fid offset count) c small = Starts-on_fid fid _ c (λ tag. refl) small
start-Starts (Call.write fid offset payload) c small = Starts-on_fid fid _ c (λ tag. refl) small
start-Starts (Call.create fid name perm mode) c small = Starts-on_fid fid _ c (λ tag. refl) small
start-Starts (Call.clunk fid) c small = Starts-on_fid fid _ c (λ tag. refl) small
start-Starts (Call.remove fid) c small = Starts-on_fid fid _ c (λ tag. refl) small
start-Starts (Call.stat fid) c small = Starts-on_fid fid _ c (λ tag. refl) small
start-Starts (Call.wstat fid entry) c small = Starts-on_fid fid _ c (λ tag. refl) small
start-Starts (Call.rename_at olddirfid oldname newdirfid newname) c small =
    Starts-on_fid olddirfid _ c (λ tag. refl) small
start-Starts (Call.referrals fid) c small = Starts-on_fid fid _ c (λ tag. refl) small
start-Starts (Call.flush oldtag) c small = elim (Bool-cases (oldtag == notag)) [
  | inl reserved ↦ rw reserved (refuses _ _ refl refl)
  | inr ordinary ↦ rw ordinary (Starts-alloc _ c small (λ tag free. begins _ _ free refl refl))
]
