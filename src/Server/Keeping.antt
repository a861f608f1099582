-- ===== src/Server/Keeping.antt =====
-- The arms of `admit_after_begin` keep the session's invariant and the request that they serve live.
use r9p.Message.{TMessage}
use r9p.Flush.{RequestKey}
use r9p.Session.{Session}
use r9p.Session.Keeps.{
  Holding, Keeps, Keeps-bind, Keeps-then, Keeps-return, Keeps-lift, Keeps-fail, Keeps-if,
  Keeps-get_fid,
}
use r9p.Session.Fids.{
  Keeps-reserve_existing_fid, Keeps-reserve_shared_fid, Keeps-reserve_new_fid, Keeps-retire_fid,
  Keeps-bind_fid, Keeps-insert_new_fid,
}
use r9p.Server.Arms.{
  gets, negotiated_variant, claim_auth_fid, reserve_walk, reserve_directories, admit_auth,
  admit_attach, admit_walk, admit_open, admit_create, admit_read, admit_write, admit_clunk,
  admit_remove, admit_stat, admit_wstat, admit_rename_at, admit_referrals,
}
use r9p.Server.Admit.{admit_after_begin}

pub Keeps-gets : {P : Session → Type 0} {A : Type 0} (f : Session → A) → Keeps P (gets f)
unfolding gets
Keeps-gets f = record { after = λ s h. h }

pub Keeps-negotiated_variant : {P : Session → Type 0} → Keeps P negotiated_variant
unfolding negotiated_variant
Keeps-negotiated_variant = record { after = λ s h. h }

ruleset keeping = (
  Keeps-bind, Keeps-then, Keeps-return, Keeps-lift, Keeps-fail, Keeps-if, Keeps-get_fid, Keeps-gets,
  Keeps-negotiated_variant, Keeps-reserve_existing_fid, Keeps-reserve_shared_fid,
  Keeps-reserve_new_fid, Keeps-retire_fid, Keeps-bind_fid, Keeps-insert_new_fid,
)

-- Every request but a flush and a version.
abbrev pub IsOrdinary : TMessage → Type 0
IsOrdinary (TMessage.version _ _ _) = ⊥
IsOrdinary (TMessage.flush _ _) = ⊥
IsOrdinary m = Unit {0}

pub Keeps-admit_after_begin :
    (m : TMessage) (key : RequestKey) → IsOrdinary m → Keeps (Holding key) (admit_after_begin m key)
unfolding admit_after_begin claim_auth_fid reserve_walk reserve_directories admit_auth admit_attach
    admit_walk admit_open admit_create admit_read admit_write admit_clunk admit_remove admit_stat
    admit_wstat admit_rename_at admit_referrals
Keeps-admit_after_begin (TMessage.version _ _ _) key o = absurd o
Keeps-admit_after_begin (TMessage.flush _ _) key o = absurd o
Keeps-admit_after_begin m key o = search keeping depth 30
