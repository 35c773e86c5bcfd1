-- ===== src/Crc.antt =====
-- crc.h and crc.cpp: the checksum of a block, by a table; and the two functions of Server.cpp that
-- put it behind a block and check it there.
pub mod Table
pub mod Bitwise
pub mod Linear
pub mod Checksum
pub mod Injective
pub mod Validate
pub mod Residue
use Prim.Native.Nat.{bit_and}
use audio_server.Common.{
  ℕ, zero, suc, ◌+◌, ◌-◌, ◌*◌, ◌/◌, Bool, Option, none, some, get_or, ltb, ◌==◌, if◌then◌else◌,
}
use audio_server.Common.Words.{u8, u16, u32}
use audio_server.Common.Xor.{bit_xor}
use audio_server.Common.Buffers.{Buffer, store}
use Table.{crc_table}

-- `crc = (crc << 8) ^ crc_table[((crc >> 24) ^ byte) & 0xff]`.
unfoldable pub crc_step : ℕ → ℕ → ℕ
crc_step crc byte =
    bit_xor (u32 (crc * 256)) (get_or crc_table (bit_and (bit_xor (crc / 16777216) byte) 0xff) 0)

-- The loop at index `i`, with `left` rounds left.
unfoldable pub crc_loop : ℕ → ℕ → ℕ → Buffer → ℕ
crc_loop zero i crc input = crc
crc_loop (suc left) i crc input = crc_loop left (i + 1) (crc_step crc (input i)) input

unfoldable pub crc32 : Buffer → ℕ → ℕ
crc32 input len = crc_loop len 0 0xffffffff input

-- The block with its checksum behind it, and the new length.
pub record Checked : Type 0 where
  pub cache : Buffer
  pub pkg_len : ℕ

unfoldable pub pack_crc : Buffer → ℕ → Checked
pack_crc cache pkg_len =
    let crc = crc32 cache pkg_len in
    record {
      cache = store (pkg_len + 3) (u8 crc) (
          store (pkg_len + 2) (u8 (crc / 256))
            (store (pkg_len + 1) (u8 (crc / 65536)) (store pkg_len (u8 (crc / 16777216)) cache)));
      pkg_len = u16 (pkg_len + 4);
    }

-- `none` stands for the read in front of the array that a block of fewer than four bytes causes.
unfoldable pub validate_crc : Buffer → ℕ → Option Bool
validate_crc cache pkg_len =
    if ltb pkg_len 4
    then none
    else some (
        crc32 cache (pkg_len - 4)
        == u32 (
            cache (pkg_len - 4) * 16777216
            + cache (pkg_len - 3) * 65536
            + cache (pkg_len - 2) * 256
            + cache (pkg_len - 1)))
