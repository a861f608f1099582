-- ===== src/Qid.antt =====
-- crates/core/src/qid.rs and mode.rs: server file identities and open modes. A mask test
-- `x & MASK != 0` is `has x mask`; `!KNOWN_MODE_BITS` on a u8 is `0xff - known_mode_bits`.
use r9p.Base.{ℕ, ◌-◌, Bool, not, bit_and, ◌==◌, ◌&&◌, ◌||◌}

abbrev pub qtfile : ℕ
qtfile = 0x00

abbrev pub qtdir : ℕ
qtdir = 0x80

abbrev pub qtappend : ℕ
qtappend = 0x40

abbrev pub qtauth : ℕ
qtauth = 0x08

abbrev pub qtsymlink : ℕ
qtsymlink = 0x02

abbrev pub dmdir : ℕ
dmdir = 0x8000_0000

abbrev pub dmsymlink : ℕ
dmsymlink = 0x0200_0000

pub record Qid : Type 0 where
  pub qtype : ℕ
  pub version : ℕ
  pub path : ℕ

abbrev pub has : ℕ → ℕ → Bool
has value mask = not (bit_and value mask == 0)

unfoldable pub is_dir : Qid → Bool
is_dir q = has q.qtype qtdir

unfoldable pub is_auth : Qid → Bool
is_auth q = has q.qtype qtauth

unfoldable pub is_symlink : Qid → Bool
is_symlink q = has q.qtype qtsymlink

abbrev pub oread : ℕ
oread = 0

abbrev pub owrite : ℕ
owrite = 1

abbrev pub ordwr : ℕ
ordwr = 2

abbrev pub oexec : ℕ
oexec = 3

abbrev pub orclose : ℕ
orclose = 0x40

abbrev pub access_mask : ℕ
access_mask = 0x03

-- ACCESS_MASK | OTRUNC | ORCLOSE.
abbrev pub known_mode_bits : ℕ
known_mode_bits = 0x53

unfoldable pub is_valid : ℕ → Bool
is_valid mode = bit_and mode (0xff - known_mode_bits) == 0

unfoldable pub permits_read : ℕ → Bool
permits_read mode =
    let access = bit_and mode access_mask in access == oread || access == ordwr || access == oexec

unfoldable pub permits_write : ℕ → Bool
permits_write mode = let access = bit_and mode access_mask in access == owrite || access == ordwr

unfoldable pub is_directory_mode : ℕ → Bool
is_directory_mode mode = is_valid mode && (bit_and mode (0xff - orclose) == oread)
