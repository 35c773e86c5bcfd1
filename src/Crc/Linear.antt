-- ===== src/Crc/Linear.antt =====
-- The step of `crc32` of crc.cpp, a byte at a time, and the division bit by bit.
use Prim.Native.Nat.{bit_and}
use native.Mathlib.Nat.{pow-suc, one-le-pow}
use audio_server.Common.{
  ℕ, zero, suc, ◌+◌, ◌-◌, ◌*◌, ◌/◌, ◌%◌, ◌^◌, ◌≤◌, ◌<◌, ◌≡◌, refl, ap, ap₂, ◌∙◌, sym, true, get_or,
  lt→ltb, le→ltb, holds_up_to, holds_up_to_sound, ◌==◌, ==→eq, arith,
}
use audio_server.Common.Words.{u32}
use audio_server.Common.Xor.{
  bit_xor, bit_xor_fields, bit_xor_swap, bit_xor-lt, bit_xor-zero, bit_xor_comm, zero-bit_xor,
}
use audio_server.Crc.Table.{crc_table}
use audio_server.Crc.{crc_step}
use audio_server.Crc.Bitwise.{
  polynomial, divide_bit, divide_bits, divide_byte, crc_table-divide_bits,
}

IsWord : ℕ → Type 0
IsWord r = r < 4294967296

-- One bit of the division, by the bit that is moved out.
divide_bit_fields :
    (t r : ℕ)
    → t < 2
    → r < 2147483648
    → divide_bit (t * 2147483648 + r) ≡ bit_xor (r * 2) (t * polynomial)
unfolding divide_bit
divide_bit_fields zero r ht hr =
    rw (lt→ltb (0 * 2147483648 + r) 2147483648 (omega arith)) (omega (arith, bit_xor-zero (r * 2)))
divide_bit_fields (suc zero) r ht hr =
    rw (le→ltb (2147483648 + r) 2147483648 (omega arith)) (ap (λ x. bit_xor x polynomial) moved)
  where
    moved : (2147483648 + r) * 2 - 4294967296 ≡ r * 2
    moved = omega arith
divide_bit_fields (suc (suc t)) r ht hr = absurd (omega arith)

pub divide_bit_parts :
    (x : ℕ)
    → x < 4294967296
    → divide_bit x ≡ bit_xor (x % 2147483648 * 2) (x / 2147483648 * polynomial)
divide_bit_parts x hx =
    ap divide_bit (omega arith)
    ∙ divide_bit_fields (x / 2147483648) (x % 2147483648) (omega arith) (omega arith)

bit_times_polynomial :
    (t s : ℕ) → t < 2 → s < 2 → bit_xor t s * polynomial ≡ bit_xor (t * polynomial) (s * polynomial)
bit_times_polynomial zero zero ht hs = refl
bit_times_polynomial zero (suc zero) ht hs = refl
bit_times_polynomial (suc zero) zero ht hs = refl
bit_times_polynomial (suc zero) (suc zero) ht hs = refl
bit_times_polynomial zero (suc (suc s)) ht hs = absurd (omega arith)
bit_times_polynomial (suc zero) (suc (suc s)) ht hs = absurd (omega arith)
bit_times_polynomial (suc (suc t)) s ht hs = absurd (omega arith)

divide_bit-bit_xor :
    (a b : ℕ)
    → a < 4294967296
    → b < 4294967296
    → divide_bit (bit_xor a b) ≡ bit_xor (divide_bit a) (divide_bit b)
divide_bit-bit_xor a b ha hb =
    ap divide_bit joined
    ∙ divide_bit_fields (bit_xor t s) (bit_xor r q) (bit_xor-lt 1 t s (omega arith) (omega arith))
        (bit_xor-lt 31 r q (omega arith) (omega arith))
    ∙ ap₂ bit_xor (sym doubled) (bit_times_polynomial t s (omega arith) (omega arith))
    ∙ bit_xor_swap (r * 2) (q * 2) (t * polynomial) (s * polynomial)
    ∙ sym (ap₂ bit_xor (divide_bit_parts a ha) (divide_bit_parts b hb))
  where
    t : ℕ
    t = a / 2147483648

    r : ℕ
    r = a % 2147483648

    s : ℕ
    s = b / 2147483648

    q : ℕ
    q = b % 2147483648

    joined : bit_xor a b ≡ bit_xor t s * 2147483648 + bit_xor r q
    joined =
        ap₂ bit_xor (omega arith) (omega arith)
        ∙ bit_xor_fields 31 t r s q (omega arith) (omega arith)

    doubled : bit_xor (r * 2) (q * 2) ≡ bit_xor r q * 2
    doubled =
        ap₂ bit_xor (omega arith) (omega arith)
        ∙ bit_xor_fields 1 r 0 q 0 (omega arith) (omega arith)
        ∙ omega arith

pub divide_bit-lt : (r : ℕ) → r < 4294967296 → divide_bit r < 4294967296
divide_bit-lt r h = rw (divide_bit_parts r h) (
    bit_xor-lt 32 (r % 2147483648 * 2) (r / 2147483648 * polynomial) (omega arith)
      (top (r / 2147483648) (omega arith)))
  where
    top : (t : ℕ) → t < 2 → t * polynomial < 4294967296
    top t ht = omega arith

pub divide_bits-lt : (n r : ℕ) → r < 4294967296 → divide_bits n r < 4294967296
unfolding divide_bits
divide_bits-lt zero r h = h
divide_bits-lt (suc n) r h = divide_bits-lt n (divide_bit r) (divide_bit-lt r h)

divide_bits-bit_xor :
    (n a b : ℕ)
    → a < 4294967296
    → b < 4294967296
    → divide_bits n (bit_xor a b) ≡ bit_xor (divide_bits n a) (divide_bits n b)
unfolding divide_bits
divide_bits-bit_xor zero a b ha hb = refl
divide_bits-bit_xor (suc n) a b ha hb =
    ap (divide_bits n) (divide_bit-bit_xor a b ha hb)
    ∙ divide_bits-bit_xor n (divide_bit a) (divide_bit b) (divide_bit-lt a ha) (divide_bit-lt b hb)

-- While no bit is moved out, the division is a shift.
divide_bits-small : (n r : ℕ) → r * 2 ^ n < 4294967296 → divide_bits n r ≡ r * 2 ^ n
unfolding divide_bits divide_bit
divide_bits-small zero r h = omega arith
divide_bits-small (suc n) r h =
    rw (lt→ltb r 2147483648 (omega (arith, pow, room)))
      (divide_bits-small n (r * 2) (omega (arith, pow)) ∙ omega (arith, pow))
  where
    pow : r * 2 ^ suc n ≡ (r * 2) * 2 ^ n
    pow = omega (arith, ap (λ (m : ℕ). r * m) (pow-suc 2 n))

    room : r * 2 ≤ (r * 2) * 2 ^ n
    room = grind (arith, one-le-pow n 2)

mask_table : holds_up_to (λ x. bit_and x 0xff == x) 256 ≡ true
unfolding holds_up_to
mask_table = refl

mask_byte : (x : ℕ) → x < 256 → bit_and x 0xff ≡ x
mask_byte x h = ==→eq _ x (holds_up_to_sound _ 256 x h mask_table)

-- A step by the table divides one byte.
pub crc_step-divide_byte :
    (crc byte : ℕ) → crc < 4294967296 → byte < 256 → crc_step crc byte ≡ divide_byte crc byte
unfolding crc_step divide_byte
crc_step-divide_byte crc byte hc hb =
    ap₂ bit_xor shifted entry
    ∙ bit_xor_comm (lo * 256) (divide_bits 8 (i * 16777216))
    ∙ ap (bit_xor (divide_bits 8 (i * 16777216))) (sym low)
    ∙ sym (divide_bits-bit_xor 8 (i * 16777216) lo (omega (arith, index)) (omega arith))
    ∙ ap (divide_bits 8) apart
  where
    hi : ℕ
    hi = crc / 16777216

    lo : ℕ
    lo = crc % 16777216

    i : ℕ
    i = bit_xor hi byte

    index : i < 256
    index = bit_xor-lt 8 hi byte (omega arith) hb

    shifted : u32 (crc * 256) ≡ lo * 256
    shifted = omega arith

    entry : get_or crc_table (bit_and i 0xff) 0 ≡ divide_bits 8 (i * 16777216)
    entry = ap (λ j. get_or crc_table j 0) (mask_byte i index) ∙ crc_table-divide_bits i index

    low : divide_bits 8 lo ≡ lo * 256
    low = divide_bits-small 8 lo (omega arith)

    apart : bit_xor (i * 16777216) lo ≡ bit_xor crc (byte * 16777216)
    apart =
        ap₂ bit_xor (omega arith) (omega arith)
        ∙ bit_xor_fields 24 i 0 0 lo (omega arith) (omega arith)
        ∙ ap₂ ◌+◌ (ap (λ x. x * 16777216) (bit_xor-zero i)) (zero-bit_xor lo)
        ∙ ap₂ ◌+◌ refl (sym (bit_xor-zero lo))
        ∙ sym (bit_xor_fields 24 hi lo byte 0 (omega arith) (omega arith))
        ∙ ap₂ bit_xor (omega arith) (omega arith)
