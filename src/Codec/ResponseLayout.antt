-- ===== src/Codec/ResponseLayout.antt =====
-- What each reply holds on the wire behind the header; see `RequestLayout`.
use r9p.Base.{
  ◌^◌, ◌≤◌, ◌<◌, ◌≡◌, sym, ap, ◌∙◌, Bytes, List, [], ◌∷◌, ◌++◌, map, concat, length, append_assoc,
  append-nil, All, lt→ltb, le→leb, ok, arith,
}
use r9p.Wire.{to_le, push_u16, push_u32, push_u64, push_qid, read_qid}
use r9p.Wire.Reads.{
  Reads, Reads-bind, Reads-then, Reads-return, Reads-require, take_bytes-Reads, read_u16-Reads,
  read_u32-Reads, read_u64-Reads, read_string-Reads, read_qid-Reads, read_many-Reads, string_bytes,
  qid_bytes, IsQid, push_qid_lem, push_string_lem,
}
use r9p.Qid.{Qid}
use r9p.Stat.RoundTrip.{IsStat, entry_bytes, encode_lem, decode_lem}
use r9p.Referral.{NamespaceReferral, validate}
use r9p.Message.{RMessage, rmessage_type, rtag, maxwelem}
use r9p.Codec.RequestLayout.{IsU32, IsString}
use r9p.Codec.EncodeResponse.{encode_rbody, encode_referral, push_referrals, push_qids}
use r9p.Codec.DecodeResponse.{read_rbody, read_referral}

abbrev pub referral_bytes : NamespaceReferral → Bytes
referral_bytes r = concat (
    string_bytes r.mount_path
    ∷ string_bytes r.endpoint
    ∷ string_bytes r.uname
    ∷ string_bytes r.aname
    ∷ string_bytes r.exported_root
    ∷ string_bytes r.authority_boundary
    ∷ to_le 8 r.generation
    ∷ to_le 8 r.valid_for_ms
    ∷ [])

-- A referral that passes its validation and fits the wire.
pub record IsReferral (r : NamespaceReferral) : Type 0 where
  pub valid : validate r ≡ ok tt
  pub mount_path_fits : IsString r.mount_path
  pub endpoint_fits : IsString r.endpoint
  pub uname_fits : IsString r.uname
  pub aname_fits : IsString r.aname
  pub exported_root_fits : IsString r.exported_root
  pub authority_boundary_fits : IsString r.authority_boundary
  pub generation_fits : r.generation < 2 ^ 64
  pub valid_for_ms_fits : r.valid_for_ms < 2 ^ 64

abbrev pub rbody_bytes : RMessage → Bytes
rbody_bytes (RMessage.version _ msize version) = concat (to_le 4 msize ∷ string_bytes version ∷ [])
rbody_bytes (RMessage.auth _ aqid) = concat (qid_bytes aqid ∷ [])
rbody_bytes (RMessage.attach _ qid) = concat (qid_bytes qid ∷ [])
rbody_bytes (RMessage.error _ ename) = concat (string_bytes ename ∷ [])
rbody_bytes (RMessage.flush _) = []
rbody_bytes (RMessage.walk _ qids) =
    concat (to_le 2 (length qids) ∷ concat (map qid_bytes qids) ∷ [])
rbody_bytes (RMessage.open_ _ qid iounit) = concat (qid_bytes qid ∷ to_le 4 iounit ∷ [])
rbody_bytes (RMessage.create _ qid iounit) = concat (qid_bytes qid ∷ to_le 4 iounit ∷ [])
rbody_bytes (RMessage.read _ data') = concat (to_le 4 (length data') ∷ data' ∷ [])
rbody_bytes (RMessage.write _ count) = concat (to_le 4 count ∷ [])
rbody_bytes (RMessage.clunk _) = []
rbody_bytes (RMessage.remove _) = []
rbody_bytes (RMessage.stat _ stat) =
    concat (to_le 2 (length (entry_bytes stat)) ∷ entry_bytes stat ∷ [])
rbody_bytes (RMessage.wstat _) = []
rbody_bytes (RMessage.rename_at _) = []
rbody_bytes (RMessage.referrals _ referrals) =
    concat (to_le 2 (length referrals) ∷ concat (map referral_bytes referrals) ∷ [])

-- Numbers within the widths of their types, strings within sixteen bits, at most sixteen qids, and
-- referrals that validate.
abbrev pub RFields : RMessage → Type 0
RFields (RMessage.version _ msize version) = IsU32 msize × IsString version
RFields (RMessage.auth _ aqid) = IsQid aqid
RFields (RMessage.attach _ qid) = IsQid qid
RFields (RMessage.error _ ename) = IsString ename
RFields (RMessage.flush _) = Unit {0}
RFields (RMessage.walk _ qids) = (length qids ≤ maxwelem) × All IsQid qids
RFields (RMessage.open_ _ qid iounit) = IsQid qid × IsU32 iounit
RFields (RMessage.create _ qid iounit) = IsQid qid × IsU32 iounit
RFields (RMessage.read _ data') = IsU32 (length data')
RFields (RMessage.write _ count) = IsU32 count
RFields (RMessage.clunk _) = Unit {0}
RFields (RMessage.remove _) = Unit {0}
RFields (RMessage.stat _ stat) = IsStat stat × (length (entry_bytes stat) < 2 ^ 16)
RFields (RMessage.wstat _) = Unit {0}
RFields (RMessage.rename_at _) = Unit {0}
RFields (RMessage.referrals _ referrals) = (length referrals < 2 ^ 16) × All IsReferral referrals

ruleset writes = (append_assoc, append-nil)

encode_referral_lem :
    (out : Bytes) (r : NamespaceReferral)
    → IsReferral r
    → encode_referral out r ≡ ok (out ++ referral_bytes r)
unfolding encode_referral push_u64
encode_referral_lem out r h = simp (
  h.valid,
  push_string_lem _ r.mount_path h.mount_path_fits,
  push_string_lem _ r.endpoint h.endpoint_fits,
  push_string_lem _ r.uname h.uname_fits,
  push_string_lem _ r.aname h.aname_fits,
  push_string_lem _ r.exported_root h.exported_root_fits,
  push_string_lem _ r.authority_boundary h.authority_boundary_fits,
  writes,
)

push_referrals_lem :
    (out : Bytes) (rs : List NamespaceReferral)
    → All IsReferral rs
    → push_referrals out rs ≡ ok (out ++ concat (map referral_bytes rs))
unfolding push_referrals
push_referrals_lem out [] h = rw append-nil
push_referrals_lem out (r ∷ rs) h =
    rw (encode_referral_lem out r h.0)
      (push_referrals_lem (out ++ referral_bytes r) rs h.1 ∙ ap ok (append_assoc out _ _))

push_qids_lem :
    (frame : Bytes) (qids : List Qid) → push_qids frame qids ≡ frame ++ concat (map qid_bytes qids)
unfolding push_qids
push_qids_lem frame [] = sym (append-nil frame)
push_qids_lem frame (qid ∷ qids) =
    push_qids_lem (push_qid frame qid) qids
    ∙ rw (push_qid_lem frame qid) (append_assoc frame (qid_bytes qid) _)

pub encode_rbody_lem :
    (frame : Bytes) (m : RMessage) → RFields m → encode_rbody frame m ≡ ok (frame ++ rbody_bytes m)
unfolding encode_rbody push_u16 push_u32
encode_rbody_lem frame (RMessage.version _ msize version) h =
    rw (push_string_lem _ version h.1) (simp writes)
encode_rbody_lem frame (RMessage.auth _ aqid) h = simp (push_qid_lem, writes)
encode_rbody_lem frame (RMessage.attach _ qid) h = simp (push_qid_lem, writes)
encode_rbody_lem frame (RMessage.error _ ename) h = rw (push_string_lem _ ename h) (simp writes)
encode_rbody_lem frame (RMessage.flush _) h = simp writes
encode_rbody_lem frame (RMessage.walk _ qids) h =
    rw (le→leb (length qids) maxwelem h.0, push_qids_lem _ qids) (simp writes)
encode_rbody_lem frame (RMessage.open_ _ qid iounit) h = simp (push_qid_lem, writes)
encode_rbody_lem frame (RMessage.create _ qid iounit) h = simp (push_qid_lem, writes)
encode_rbody_lem frame (RMessage.read _ data') h =
    rw (lt→ltb (length data') (2 ^ 32) h) (simp writes)
encode_rbody_lem frame (RMessage.write _ count) h = simp writes
encode_rbody_lem frame (RMessage.clunk _) h = simp writes
encode_rbody_lem frame (RMessage.remove _) h = simp writes
encode_rbody_lem frame (RMessage.stat _ stat) h =
    rw (encode_lem stat h.0) (rw (lt→ltb (length (entry_bytes stat)) (2 ^ 16) h.1) (simp writes))
encode_rbody_lem frame (RMessage.wstat _) h = simp writes
encode_rbody_lem frame (RMessage.rename_at _) h = simp writes
encode_rbody_lem frame (RMessage.referrals _ referrals) h =
    rw (lt→ltb (length referrals) (2 ^ 16) h.0) (push_referrals_lem _ referrals h.1 ∙ simp writes)

read_referral-Reads :
    (r : NamespaceReferral) → IsReferral r → Reads read_referral (referral_bytes r) r
unfolding read_referral
read_referral-Reads r h = Reads-bind _ (read_string-Reads r.mount_path h.mount_path_fits) (
    Reads-bind _ (read_string-Reads r.endpoint h.endpoint_fits) (
      Reads-bind _ (read_string-Reads r.uname h.uname_fits) (
        Reads-bind _ (read_string-Reads r.aname h.aname_fits) (
          Reads-bind _ (read_string-Reads r.exported_root h.exported_root_fits) (
            Reads-bind _ (read_string-Reads r.authority_boundary h.authority_boundary_fits) (
              Reads-bind _ (read_u64-Reads r.generation h.generation_fits) (
                Reads-bind _ (read_u64-Reads r.valid_for_ms h.valid_for_ms_fits)
                  (Reads-then (Reads-require h.valid) (Reads-return r)))))))))

-- The reader of the message's own type consumes its bytes and rebuilds it.
pub read_rbody-Reads :
    (m : RMessage) → RFields m → Reads (read_rbody (rmessage_type m) (rtag m)) (rbody_bytes m) m
unfolding read_rbody rmessage_type rtag
read_rbody-Reads (RMessage.version tag msize version) h =
    Reads-bind _ (read_u32-Reads msize h.0)
      (Reads-bind _ (read_string-Reads version h.1) (Reads-return _))
read_rbody-Reads (RMessage.auth tag aqid) h = Reads-bind _ (read_qid-Reads aqid h) (Reads-return _)
read_rbody-Reads (RMessage.attach tag qid) h = Reads-bind _ (read_qid-Reads qid h) (Reads-return _)
read_rbody-Reads (RMessage.error tag ename) h =
    Reads-bind _ (read_string-Reads ename h) (Reads-return _)
read_rbody-Reads (RMessage.flush tag) h = Reads-return _
read_rbody-Reads (RMessage.walk tag qids) h =
    Reads-bind _ (read_u16-Reads (length qids) (omega arith)) (
      Reads-then (Reads-require (ground arith)) (
        Reads-bind _ (read_many-Reads IsQid read_qid qid_bytes read_qid-Reads qids h.1)
          (Reads-return _)))
read_rbody-Reads (RMessage.open_ tag qid iounit) h =
    Reads-bind _ (read_qid-Reads qid h.0)
      (Reads-bind _ (read_u32-Reads iounit h.1) (Reads-return _))
read_rbody-Reads (RMessage.create tag qid iounit) h =
    Reads-bind _ (read_qid-Reads qid h.0)
      (Reads-bind _ (read_u32-Reads iounit h.1) (Reads-return _))
read_rbody-Reads (RMessage.read tag data') h =
    Reads-bind _ (read_u32-Reads (length data') h)
      (Reads-bind _ (take_bytes-Reads data') (Reads-return _))
read_rbody-Reads (RMessage.write tag count) h =
    Reads-bind _ (read_u32-Reads count h) (Reads-return _)
read_rbody-Reads (RMessage.clunk tag) h = Reads-return _
read_rbody-Reads (RMessage.remove tag) h = Reads-return _
read_rbody-Reads (RMessage.stat tag stat) h =
    Reads-bind _ (read_u16-Reads (length (entry_bytes stat)) h.1) (
      Reads-bind _ (take_bytes-Reads (entry_bytes stat))
        (Reads-bind _ (Reads-require (decode_lem stat h.0)) (Reads-return _)))
read_rbody-Reads (RMessage.wstat tag) h = Reads-return _
read_rbody-Reads (RMessage.rename_at tag) h = Reads-return _
read_rbody-Reads (RMessage.referrals tag referrals) h =
    Reads-bind _ (read_u16-Reads (length referrals) h.0) (
      Reads-bind _
        (read_many-Reads IsReferral read_referral referral_bytes read_referral-Reads referrals h.1)
        (Reads-return _))
