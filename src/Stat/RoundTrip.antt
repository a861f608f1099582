-- ===== src/Stat/RoundTrip.antt =====
-- A stat that fits the wire is encoded to `stat_bytes` behind its size, and read back from there.
use r9p.Base.{
  ◌+◌, ◌^◌, ◌<◌, ◌≡◌, refl, ==-refl, Bytes, [], ◌∷◌, ◌++◌, length, length-append, append-nil,
  append_assoc, concat, ok, arith,
}
use r9p.Wire.{to_le, cursor_new, remaining, push_u16, push_u32, push_u64}
use r9p.Wire.Reads.{
  at, Reads, Reads-all, Reads-bind, Reads-return, read_u16-Reads, read_u32-Reads, read_u64-Reads,
  read_qid-Reads, read_string-Reads, string_bytes, qid_bytes, IsQid, push_qid_lem, push_string_lem,
  length-to_le,
}
use r9p.Stat.{Stat, encode_fields, encode}
use r9p.Stat.Fields.{read_fields}
use r9p.Stat.Decode.{decode}

-- The fields of a stat on the wire, in order.
unfoldable pub stat_bytes : Stat → Bytes
stat_bytes s = concat (
    to_le 2 s.kind
    ∷ to_le 4 s.dev
    ∷ qid_bytes s.qid
    ∷ to_le 4 s.mode
    ∷ to_le 4 s.atime
    ∷ to_le 4 s.mtime
    ∷ to_le 8 s.length
    ∷ string_bytes s.name
    ∷ string_bytes s.uid
    ∷ string_bytes s.gid
    ∷ string_bytes s.muid
    ∷ [])

-- Numbers within the widths of their types, strings and the whole within sixteen bits.
pub record IsStat (s : Stat) : Type 0 where
  pub kind_fits : s.kind < 2 ^ 16
  pub dev_fits : s.dev < 2 ^ 32
  pub qid_fits : IsQid s.qid
  pub mode_fits : s.mode < 2 ^ 32
  pub atime_fits : s.atime < 2 ^ 32
  pub mtime_fits : s.mtime < 2 ^ 32
  pub length_fits : s.length < 2 ^ 64
  pub name_fits : length s.name < 2 ^ 16
  pub uid_fits : length s.uid < 2 ^ 16
  pub gid_fits : length s.gid < 2 ^ 16
  pub muid_fits : length s.muid < 2 ^ 16
  pub body_fits : length (stat_bytes s) < 2 ^ 16

-- A stat as it stands in a directory or in a message.
abbrev pub entry_bytes : Stat → Bytes
entry_bytes s = to_le 2 (length (stat_bytes s)) ++ stat_bytes s

encode_fields_lem : (s : Stat) → IsStat s → encode_fields s ≡ ok (stat_bytes s)
unfolding encode_fields stat_bytes push_u16 push_u32 push_u64
encode_fields_lem s h = simp (
  push_qid_lem,
  push_string_lem _ s.name h.name_fits,
  push_string_lem _ s.uid h.uid_fits,
  push_string_lem _ s.gid h.gid_fits,
  push_string_lem _ s.muid h.muid_fits,
  append_assoc,
  append-nil,
)

pub encode_lem : (s : Stat) → IsStat s → encode s ≡ ok (entry_bytes s)
unfolding encode push_u16
encode_lem s h = rw (encode_fields_lem s h) (ground (arith, h.body_fits))

read_fields-Reads : (s : Stat) → IsStat s → Reads read_fields (stat_bytes s) s
unfolding read_fields stat_bytes
read_fields-Reads s h = Reads-bind _ (read_u16-Reads s.kind h.kind_fits) (
    Reads-bind _ (read_u32-Reads s.dev h.dev_fits) (
      Reads-bind _ (read_qid-Reads s.qid h.qid_fits) (
        Reads-bind _ (read_u32-Reads s.mode h.mode_fits) (
          Reads-bind _ (read_u32-Reads s.atime h.atime_fits) (
            Reads-bind _ (read_u32-Reads s.mtime h.mtime_fits) (
              Reads-bind _ (read_u64-Reads s.length h.length_fits) (
                Reads-bind _ (read_string-Reads s.name h.name_fits) (
                  Reads-bind _ (read_string-Reads s.uid h.uid_fits) (
                    Reads-bind _ (read_string-Reads s.gid h.gid_fits) (
                      Reads-bind _ (read_string-Reads s.muid h.muid_fits) (Reads-return s)))))))))))

pub length-entry_bytes : (s : Stat) → length (entry_bytes s) ≡ length (stat_bytes s) + 2
length-entry_bytes s = omega (
  arith,
  length-append (to_le 2 (length (stat_bytes s))) (stat_bytes s),
  length-to_le 2 (length (stat_bytes s)),
)

-- A sized body that the field reads consume whole is a stat.
decode_sized :
    (s : Stat) (body : Bytes)
    → length body < 2 ^ 16
    → Reads read_fields body s
    → decode (to_le 2 (length body) ++ body) ≡ ok s
unfolding decode cursor_new remaining
decode_sized s body h r =
    rw ((read_u16-Reads (length body) h).run 0 body room) (rw (==-refl, fields) refl)
  where
    sized : length (to_le 2 (length body) ++ body) ≡ length body + 2
    sized = omega (arith, length-append (to_le 2 (length body)) body, length-to_le 2 (length body))

    room : 0 + length (to_le 2 (length body) ++ body) < 2 ^ 64
    room = omega (arith, sized)

    fields :
        read_fields (at (0 + length (to_le 2 (length body))) body)
        ≡ ok (s, at (0 + length (to_le 2 (length body)) + length body) [])
    fields = Reads-all _ r (omega (arith, length-to_le 2 (length body)))

pub decode_lem : (s : Stat) → IsStat s → decode (entry_bytes s) ≡ ok s
decode_lem s h = decode_sized s (stat_bytes s) h.body_fits (read_fields-Reads s h)
