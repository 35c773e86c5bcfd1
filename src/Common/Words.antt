-- ===== src/Common/Words.antt =====
-- Casts to the unsigned widths of C++, and big-endian numbers.
use Prim.Native.Nat.{ℕ, ◌%◌, ◌<◌}

abbrev pub u32 : ℕ → ℕ
u32 number = number % 4294967296

abbrev pub u16 : ℕ → ℕ
u16 number = number % 65536

abbrev pub u8 : ℕ → ℕ
u8 number = number % 256

abbrev pub IsByte : ℕ → Type 0
IsByte b = b < 256
