-- ===== src/Codec/RequestLayout.antt =====
-- What each request holds on the wire behind the header, as a specification of its own: the encoder
-- writes exactly these bytes, and the decoder reads them back.
use r9p.Base.{
  ℕ, ◌^◌, ◌≤◌, ◌<◌, ◌≡◌, ap, ◌∙◌, Bytes, List, [], ◌∷◌, ◌++◌, map, concat, length, append_assoc,
  append-nil, All, lt→ltb, le→leb, ok, arith,
}
use r9p.Wire.{to_le, push_u8, push_u16, push_u32, push_u64, read_string}
use r9p.Wire.Reads.{
  Reads, Reads-bind, Reads-then, Reads-return, Reads-require, take_bytes-Reads, read_u8-Reads,
  read_u16-Reads, read_u32-Reads, read_u64-Reads, read_string-Reads, read_many-Reads, string_bytes,
  push_string_lem,
}
use r9p.Stat.RoundTrip.{IsStat, entry_bytes, encode_lem, decode_lem}
use r9p.Message.{TMessage, tmessage_type, ttag, maxwelem}
use r9p.Codec.EncodeRequest.{encode_tbody, push_names}
use r9p.Codec.DecodeRequest.{read_tbody}

abbrev pub tbody_bytes : TMessage → Bytes
tbody_bytes (TMessage.version _ msize version) = concat (to_le 4 msize ∷ string_bytes version ∷ [])
tbody_bytes (TMessage.auth _ afid uname aname) =
    concat (to_le 4 afid ∷ string_bytes uname ∷ string_bytes aname ∷ [])
tbody_bytes (TMessage.attach _ fid afid uname aname) =
    concat (to_le 4 fid ∷ to_le 4 afid ∷ string_bytes uname ∷ string_bytes aname ∷ [])
tbody_bytes (TMessage.flush _ oldtag) = concat (to_le 2 oldtag ∷ [])
tbody_bytes (TMessage.walk _ fid newfid wnames) =
    concat (
      to_le 4 fid
      ∷ to_le 4 newfid
      ∷ to_le 2 (length wnames)
      ∷ concat (map string_bytes wnames)
      ∷ [])
tbody_bytes (TMessage.open_ _ fid mode) = concat (to_le 4 fid ∷ (mode ∷ []) ∷ [])
tbody_bytes (TMessage.create _ fid name perm mode) =
    concat (to_le 4 fid ∷ string_bytes name ∷ to_le 4 perm ∷ (mode ∷ []) ∷ [])
tbody_bytes (TMessage.read _ fid offset count) =
    concat (to_le 4 fid ∷ to_le 8 offset ∷ to_le 4 count ∷ [])
tbody_bytes (TMessage.write _ fid offset data') =
    concat (to_le 4 fid ∷ to_le 8 offset ∷ to_le 4 (length data') ∷ data' ∷ [])
tbody_bytes (TMessage.clunk _ fid) = concat (to_le 4 fid ∷ [])
tbody_bytes (TMessage.remove _ fid) = concat (to_le 4 fid ∷ [])
tbody_bytes (TMessage.stat _ fid) = concat (to_le 4 fid ∷ [])
tbody_bytes (TMessage.wstat _ fid stat) =
    concat (to_le 4 fid ∷ to_le 2 (length (entry_bytes stat)) ∷ entry_bytes stat ∷ [])
tbody_bytes (TMessage.rename_at _ olddirfid oldname newdirfid newname) =
    concat
      (to_le 4 olddirfid ∷ string_bytes oldname ∷ to_le 4 newdirfid ∷ string_bytes newname ∷ [])
tbody_bytes (TMessage.referrals _ fid) = concat (to_le 4 fid ∷ [])

abbrev pub IsU32 : ℕ → Type 0
IsU32 n = n < 2 ^ 32

abbrev pub IsString : Bytes → Type 0
IsString s = length s < 2 ^ 16

-- Numbers within the widths of their types, strings within sixteen bits, at most sixteen names, and
-- a stat whose sized form fits sixteen bits too.
abbrev pub TFields : TMessage → Type 0
TFields (TMessage.version _ msize version) = IsU32 msize × IsString version
TFields (TMessage.auth _ afid uname aname) = IsU32 afid × IsString uname × IsString aname
TFields (TMessage.attach _ fid afid uname aname) =
    IsU32 fid × IsU32 afid × IsString uname × IsString aname
TFields (TMessage.flush _ oldtag) = oldtag < 2 ^ 16
TFields (TMessage.walk _ fid newfid wnames) =
    IsU32 fid × IsU32 newfid × (length wnames ≤ maxwelem) × All IsString wnames
TFields (TMessage.open_ _ fid mode) = IsU32 fid
TFields (TMessage.create _ fid name perm mode) = IsU32 fid × IsString name × IsU32 perm
TFields (TMessage.read _ fid offset count) = IsU32 fid × (offset < 2 ^ 64) × IsU32 count
TFields (TMessage.write _ fid offset data') = IsU32 fid × (offset < 2 ^ 64) × IsU32 (length data')
TFields (TMessage.clunk _ fid) = IsU32 fid
TFields (TMessage.remove _ fid) = IsU32 fid
TFields (TMessage.stat _ fid) = IsU32 fid
TFields (TMessage.wstat _ fid stat) = IsU32 fid × IsStat stat × (length (entry_bytes stat) < 2 ^ 16)
TFields (TMessage.rename_at _ olddirfid oldname newdirfid newname) =
    IsU32 olddirfid × IsString oldname × IsU32 newdirfid × IsString newname
TFields (TMessage.referrals _ fid) = IsU32 fid

push_names_lem :
    (frame : Bytes) (names : List Bytes)
    → All IsString names
    → push_names frame names ≡ ok (frame ++ concat (map string_bytes names))
unfolding push_names
push_names_lem frame [] h = rw append-nil
push_names_lem frame (name ∷ names) h =
    rw (push_string_lem frame name h.0)
      (push_names_lem (frame ++ string_bytes name) names h.1 ∙ ap ok (append_assoc frame _ _))

ruleset writes = (append_assoc, append-nil)

pub encode_tbody_lem :
    (frame : Bytes) (m : TMessage) → TFields m → encode_tbody frame m ≡ ok (frame ++ tbody_bytes m)
unfolding encode_tbody push_u8 push_u16 push_u32 push_u64
encode_tbody_lem frame (TMessage.version _ msize version) h =
    rw (push_string_lem _ version h.1) (simp writes)
encode_tbody_lem frame (TMessage.auth _ afid uname aname) h =
    rw (push_string_lem _ uname h.1) (rw (push_string_lem _ aname h.2) (simp writes))
encode_tbody_lem frame (TMessage.attach _ fid afid uname aname) h =
    rw (push_string_lem _ uname h.2) (rw (push_string_lem _ aname h.3) (simp writes))
encode_tbody_lem frame (TMessage.flush _ oldtag) h = simp writes
encode_tbody_lem frame (TMessage.walk _ fid newfid wnames) h =
    rw (le→leb (length wnames) maxwelem h.2) (push_names_lem _ wnames h.3 ∙ simp writes)
encode_tbody_lem frame (TMessage.open_ _ fid mode) h = simp writes
encode_tbody_lem frame (TMessage.create _ fid name perm mode) h =
    rw (push_string_lem _ name h.1) (simp writes)
encode_tbody_lem frame (TMessage.read _ fid offset count) h = simp writes
encode_tbody_lem frame (TMessage.write _ fid offset data') h =
    rw (lt→ltb (length data') (2 ^ 32) h.2) (simp writes)
encode_tbody_lem frame (TMessage.clunk _ fid) h = simp writes
encode_tbody_lem frame (TMessage.remove _ fid) h = simp writes
encode_tbody_lem frame (TMessage.stat _ fid) h = simp writes
encode_tbody_lem frame (TMessage.wstat _ fid stat) h =
    rw (encode_lem stat h.1) (rw (lt→ltb (length (entry_bytes stat)) (2 ^ 16) h.2) (simp writes))
encode_tbody_lem frame (TMessage.rename_at _ olddirfid oldname newdirfid newname) h =
    rw (push_string_lem _ oldname h.1) (rw (push_string_lem _ newname h.3) (simp writes))
encode_tbody_lem frame (TMessage.referrals _ fid) h = simp writes

-- The reader of the message's own type consumes its bytes and rebuilds it.
pub read_tbody-Reads :
    (m : TMessage) → TFields m → Reads (read_tbody (tmessage_type m) (ttag m)) (tbody_bytes m) m
unfolding read_tbody tmessage_type ttag
read_tbody-Reads (TMessage.version tag msize version) h =
    Reads-bind _ (read_u32-Reads msize h.0)
      (Reads-bind _ (read_string-Reads version h.1) (Reads-return _))
read_tbody-Reads (TMessage.auth tag afid uname aname) h = Reads-bind _ (read_u32-Reads afid h.0) (
    Reads-bind _ (read_string-Reads uname h.1)
      (Reads-bind _ (read_string-Reads aname h.2) (Reads-return _)))
read_tbody-Reads (TMessage.attach tag fid afid uname aname) h =
    Reads-bind _ (read_u32-Reads fid h.0) (
      Reads-bind _ (read_u32-Reads afid h.1) (
        Reads-bind _ (read_string-Reads uname h.2)
          (Reads-bind _ (read_string-Reads aname h.3) (Reads-return _))))
read_tbody-Reads (TMessage.flush tag oldtag) h =
    Reads-bind _ (read_u16-Reads oldtag h) (Reads-return _)
read_tbody-Reads (TMessage.walk tag fid newfid wnames) h = Reads-bind _ (read_u32-Reads fid h.0) (
    Reads-bind _ (read_u32-Reads newfid h.1) (
      Reads-bind _ (read_u16-Reads (length wnames) (omega arith)) (
        Reads-then (Reads-require (ground arith)) (
          Reads-bind _
            (read_many-Reads IsString read_string string_bytes read_string-Reads wnames h.3)
            (Reads-return _)))))
read_tbody-Reads (TMessage.open_ tag fid mode) h =
    Reads-bind _ (read_u32-Reads fid h) (Reads-bind _ (read_u8-Reads mode) (Reads-return _))
read_tbody-Reads (TMessage.create tag fid name perm mode) h =
    Reads-bind _ (read_u32-Reads fid h.0) (
      Reads-bind _ (read_string-Reads name h.1) (
        Reads-bind _ (read_u32-Reads perm h.2)
          (Reads-bind _ (read_u8-Reads mode) (Reads-return _))))
read_tbody-Reads (TMessage.read tag fid offset count) h = Reads-bind _ (read_u32-Reads fid h.0) (
    Reads-bind _ (read_u64-Reads offset h.1)
      (Reads-bind _ (read_u32-Reads count h.2) (Reads-return _)))
read_tbody-Reads (TMessage.write tag fid offset data') h = Reads-bind _ (read_u32-Reads fid h.0) (
    Reads-bind _ (read_u64-Reads offset h.1) (
      Reads-bind _ (read_u32-Reads (length data') h.2)
        (Reads-bind _ (take_bytes-Reads data') (Reads-return _))))
read_tbody-Reads (TMessage.clunk tag fid) h = Reads-bind _ (read_u32-Reads fid h) (Reads-return _)
read_tbody-Reads (TMessage.remove tag fid) h = Reads-bind _ (read_u32-Reads fid h) (Reads-return _)
read_tbody-Reads (TMessage.stat tag fid) h = Reads-bind _ (read_u32-Reads fid h) (Reads-return _)
read_tbody-Reads (TMessage.wstat tag fid stat) h = Reads-bind _ (read_u32-Reads fid h.0) (
    Reads-bind _ (read_u16-Reads (length (entry_bytes stat)) h.2) (
      Reads-bind _ (take_bytes-Reads (entry_bytes stat))
        (Reads-bind _ (Reads-require (decode_lem stat h.1)) (Reads-return _))))
read_tbody-Reads (TMessage.rename_at tag olddirfid oldname newdirfid newname) h =
    Reads-bind _ (read_u32-Reads olddirfid h.0) (
      Reads-bind _ (read_string-Reads oldname h.1) (
        Reads-bind _ (read_u32-Reads newdirfid h.2)
          (Reads-bind _ (read_string-Reads newname h.3) (Reads-return _))))
read_tbody-Reads (TMessage.referrals tag fid) h =
    Reads-bind _ (read_u32-Reads fid h) (Reads-return _)
