-- ===== src/Server/Plain.antt =====
-- The replies that have no I/O unit: all but those to an open and to a create.
use r9p.Base.{ℕ, ◌≡◌, refl, List, [], ◌∷◌, Bytes}
use r9p.Qid.{Qid}
use r9p.Message.{TMessage, RMessage}
use r9p.Codec.{Variant}
use r9p.Flush.{RequestKey}
use r9p.Server.{
  ServerEvent, reply, dispatch, flushed, ServerRequestKind, ServerCompletion, auth_done,
  attach_done, walk_done, read_done, write_done, clunk_done, remove_done, stat_done, wstat_done,
  rename_at_done, referrals_done,
}
use r9p.Server.Arms.{
  admit_auth, admit_attach, admit_flush, admit_walk, admit_open, admit_create, admit_read,
  admit_write, admit_clunk, admit_remove, admit_stat, admit_wstat, admit_rename_at, admit_referrals,
}
use r9p.Server.Admit.{admit_after_begin}
use r9p.Server.Complete.{
  complete_auth, complete_attach, complete_walk, complete_read, walk_empty, walk_named, apply_kind,
}
use r9p.Server.Ensures.{
  kind_type, Ensures-if, Ensures, Ensures-bind, Ensures-then, Ensures-return, Ensures-fail, ensures,
}
use r9p.Client.Responses.{FitsIounit}

-- A reply that has no I/O unit.
abbrev pub Plain : RMessage → Type 0
Plain (RMessage.open_ _ _ _) = ⊥
Plain (RMessage.create _ _ _) = ⊥
Plain r = Unit {0}

pub Plain-FitsIounit : (n : ℕ) (r : RMessage) → Plain r → FitsIounit n r
Plain-FitsIounit n (RMessage.open_ _ _ _) h = absurd h
Plain-FitsIounit n (RMessage.create _ _ _) h = absurd h
Plain-FitsIounit n r h = tt

abbrev pub PlainEvent : ServerEvent → Type 0
PlainEvent (reply r) = Plain r
PlainEvent (flushed r _) = Plain r
PlainEvent (dispatch request) = Unit {0}

pub admit_after_begin-Plain :
    (m : TMessage) (key : RequestKey) → Ensures PlainEvent (admit_after_begin m key)
unfolding admit_after_begin admit_auth admit_attach admit_flush admit_walk admit_open admit_create
    admit_read admit_write admit_clunk admit_remove admit_stat admit_wstat admit_rename_at
    admit_referrals
admit_after_begin-Plain (TMessage.version _ _ _) key = Ensures-fail _
admit_after_begin-Plain (TMessage.flush _ oldtag) key =
    Ensures-bind _ _ λ _. Ensures-then _ _ (Ensures-then _ _ (Ensures-return _ tt))
admit_after_begin-Plain m key = search (ensures, tt) depth 20

walk_named-Plain :
    (tag fid newfid : ℕ) (wnames : List Bytes) (qids : List Qid)
    → Ensures Plain (walk_named tag fid newfid wnames qids)
unfolding walk_named
walk_named-Plain tag fid newfid wnames [] = Ensures-fail _
walk_named-Plain tag fid newfid wnames (q ∷ qids) = Ensures-then _ _ (Ensures-return _ tt)

walk_empty-Plain :
    (tag fid newfid : ℕ) (start : Qid) → Ensures Plain (walk_empty tag fid newfid start)
unfolding walk_empty
walk_empty-Plain tag fid newfid start = Ensures-then _ _ (Ensures-return _ tt)

pub apply_kind-Plain :
    (tag : ℕ) (variant : Variant) (kind : ServerRequestKind) (completion : ServerCompletion)
    → (kind_type kind ≡ 112 → ⊥)
    → (kind_type kind ≡ 114 → ⊥)
    → Ensures Plain (apply_kind tag variant kind completion)
unfolding apply_kind complete_auth complete_attach complete_walk complete_read
apply_kind-Plain tag variant (ServerRequestKind.open_ _ _ _) completion h k = absurd (h refl)
apply_kind-Plain tag variant (ServerRequestKind.create _ _ _ _ _) completion h k = absurd (k refl)
apply_kind-Plain tag variant (ServerRequestKind.walk fid newfid start wnames) (walk_done qids) h k =
    Ensures-then _ _ (
      Ensures-then _ _ (
        Ensures-if _ _ _ (walk_empty-Plain tag fid newfid start)
          (walk_named-Plain tag fid newfid wnames qids)))
apply_kind-Plain tag variant (ServerRequestKind.auth _ _ _) (auth_done _) h k =
    search (ensures, tt) depth 20
apply_kind-Plain tag variant (ServerRequestKind.attach _ _ _ _) (attach_done _) h k =
    search (ensures, tt) depth 20
apply_kind-Plain tag variant (ServerRequestKind.read _ _ _ _) (read_done _) h k =
    search (ensures, tt) depth 20
apply_kind-Plain tag variant (ServerRequestKind.write _ _ _ _) (write_done _) h k =
    search (ensures, tt) depth 20
apply_kind-Plain tag variant (ServerRequestKind.clunk _ _) clunk_done h k =
    search (ensures, tt) depth 20
apply_kind-Plain tag variant (ServerRequestKind.remove _ _) remove_done h k =
    search (ensures, tt) depth 20
apply_kind-Plain tag variant (ServerRequestKind.stat _ _) (stat_done _) h k =
    search (ensures, tt) depth 20
apply_kind-Plain tag variant (ServerRequestKind.wstat _ _ _) wstat_done h k =
    search (ensures, tt) depth 20
apply_kind-Plain tag variant (ServerRequestKind.rename_at _ _ _ _ _ _) rename_at_done h k =
    search (ensures, tt) depth 20
apply_kind-Plain tag variant (ServerRequestKind.referrals _ _) (referrals_done _) h k =
    search (ensures, tt) depth 20
apply_kind-Plain tag variant kind completion h k = Ensures-fail _
