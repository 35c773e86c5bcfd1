-- ===== src/Crc/Bitwise.antt =====
-- The checksum as its definition: division by the polynomial 0x04c11db7, bit by bit, highest
-- bit first, and the table of crc.cpp beside it.
use audio_server.Common.{
  ℕ, zero, suc, ◌-◌, ◌*◌, ◌<◌, ◌≡◌, refl, true, get_or, ltb, holds_up_to, holds_up_to_sound, ◌==◌,
  ==→eq, if◌then◌else◌,
}
use audio_server.Common.Xor.{bit_xor}
use audio_server.Crc.Table.{crc_table}

abbrev pub polynomial : ℕ
polynomial = 0x04c11db7

-- One bit of the division.
unfoldable pub divide_bit : ℕ → ℕ
divide_bit r = if ltb r 2147483648 then r * 2 else bit_xor (r * 2 - 4294967296) polynomial

unfoldable pub divide_bits : ℕ → ℕ → ℕ
divide_bits zero r = r
divide_bits (suc n) r = divide_bits n (divide_bit r)

-- One byte of the message.
unfoldable pub divide_byte : ℕ → ℕ → ℕ
divide_byte r byte = divide_bits 8 (bit_xor r (byte * 16777216))

table_agrees : holds_up_to (λ i. get_or crc_table i 0 == divide_bits 8 (i * 16777216)) 256 ≡ true
unfolding holds_up_to crc_table divide_bits divide_bit
table_agrees = refl

-- Every entry of the table is the remainder of its index, moved up by 32 bits.
pub crc_table-divide_bits : (i : ℕ) → i < 256 → get_or crc_table i 0 ≡ divide_bits 8 (i * 16777216)
crc_table-divide_bits i h = ==→eq _ _ (holds_up_to_sound _ 256 i h table_agrees)
