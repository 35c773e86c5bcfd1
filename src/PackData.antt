-- ===== src/PackData.antt =====
-- pack_data.h and pack_data.cpp: a number of `size` bytes, big-endian. The template's type is an
-- unsigned one, so `size` is `sizeof(T)` and a number stays below 2 ^ (8 * size).
pub mod RoundTrip
use audio_server.Common.{ℕ, zero, suc, ◌+◌, ◌-◌, ◌*◌, ◌/◌, ◌%◌, ◌^◌}
use audio_server.Common.Words.{u8}
use audio_server.Common.Buffers.{Buffer, store, copy_bytes}

-- What the functions write to `dst`, and their result.
pub record Moved : Type 0 where
  pub bytes : Buffer
  pub size : ℕ

-- The loop at index `i`, with `left` rounds left.
unfoldable pub pack_bytes : ℕ → ℕ → ℕ → ℕ → Buffer → Buffer
pack_bytes zero i size src dst = dst
pack_bytes (suc left) i size src dst =
    pack_bytes left (i + 1) size src (store i (u8 (src / 2 ^ ((size - 1 - i) * 8))) dst)

unfoldable pub pack_primitive : ℕ → Buffer → ℕ → Moved
unfolding pack_bytes
pack_primitive size dst src = record { bytes = pack_bytes size 0 size src dst; size = size }

-- The loop at index `i`; `dst << 8` loses the bits above the type.
unfoldable pub parse_bytes : ℕ → ℕ → ℕ → Buffer → ℕ → ℕ
parse_bytes zero i size src dst = dst
parse_bytes (suc left) i size src dst =
    parse_bytes left (i + 1) size src ((dst * 256 + src i) % 2 ^ (size * 8))

unfoldable pub parse_primitive : ℕ → Buffer → ℕ
unfolding parse_bytes
parse_primitive size src = parse_bytes size 0 size src 0

-- The early return for no bytes copies none.
unfoldable pub move_array : Buffer → Buffer → ℕ → Moved
move_array dst src zero = record { bytes = dst; size = 0 }
move_array dst src (suc len) = record { bytes = copy_bytes (suc len) src dst; size = suc len }
