-- ===== src/Crc/Injective.antt =====
-- Two blocks that differ in one byte, followed through the steps of `crc32` of crc.cpp.
use native.Mathlib.Decide.{ℕ_discrete}
use audio_server.Common.{
  ℕ, zero, suc, ◌+◌, ◌*◌, ◌/◌, ◌%◌, ◌≤◌, ◌<◌, ◌≡◌, ◌≢◌, ◌⊎◌, refl, ap, ◌∙◌, sym, arith, subst,
}
use audio_server.Common.Words.{IsByte}
use audio_server.Common.Xor.{bit_xor, bit_xor-lt, bit_xor_step, bit_xor_cancel, bit_xor_comm}
use audio_server.Common.Buffers.{Buffer}
use audio_server.Crc.{crc_step, crc_loop, crc32}
use audio_server.Crc.Bitwise.{polynomial, divide_bit, divide_bits, divide_byte}
use audio_server.Crc.Linear.{divide_bit_parts, divide_bit-lt, crc_step-divide_byte}
use audio_server.Crc.Checksum.{crc_step-lt}

bit_xor-right_injective : (a b c : ℕ) → bit_xor a c ≡ bit_xor b c → a ≡ b
bit_xor-right_injective a b c e =
    sym (bit_xor_cancel a c) ∙ ap (λ x. bit_xor x c) e ∙ bit_xor_cancel b c

-- The polynomial is odd, so the bit that was moved out is the lowest one of the result.
moved_out : (t r : ℕ) → t < 2 → bit_xor (r * 2) (t * polynomial) % 2 ≡ t
moved_out t r ht = omega (arith, bit_xor_step (r * 2) (t * polynomial))

divide_bit-injective :
    (a b : ℕ) → a < 4294967296 → b < 4294967296 → divide_bit a ≡ divide_bit b → a ≡ b
divide_bit-injective a b ha hb e = omega (arith, tops, bit_xor-right_injective _ _ _ lows)
  where
    joined :
        bit_xor (a % 2147483648 * 2) (a / 2147483648 * polynomial)
        ≡ bit_xor (b % 2147483648 * 2) (b / 2147483648 * polynomial)
    joined = sym (divide_bit_parts a ha) ∙ e ∙ divide_bit_parts b hb

    tops : a / 2147483648 ≡ b / 2147483648
    tops =
        sym (moved_out (a / 2147483648) (a % 2147483648) (omega arith))
        ∙ ap (λ x. x % 2) joined
        ∙ moved_out (b / 2147483648) (b % 2147483648) (omega arith)

    lows :
        bit_xor (a % 2147483648 * 2) (a / 2147483648 * polynomial)
        ≡ bit_xor (b % 2147483648 * 2) (a / 2147483648 * polynomial)
    lows = joined ∙ ap (λ t. bit_xor (b % 2147483648 * 2) (t * polynomial)) (sym tops)

divide_bits-injective :
    (n a b : ℕ) → a < 4294967296 → b < 4294967296 → divide_bits n a ≡ divide_bits n b → a ≡ b
unfolding divide_bits
divide_bits-injective zero a b ha hb e = e
divide_bits-injective (suc n) a b ha hb e = divide_bit-injective a b ha hb (
    divide_bits-injective n (divide_bit a) (divide_bit b) (divide_bit-lt a ha) (divide_bit-lt b hb)
      e)

-- A step of the checksum loses neither the checksum so far nor the byte.
module _ (r s x y : ℕ) (hr : r < 4294967296) (hs : s < 4294967296) (hx : IsByte x) (hy : IsByte y)
    (e : crc_step r x ≡ crc_step s y) where
  mixed : bit_xor r (x * 16777216) ≡ bit_xor s (y * 16777216)
  unfolding divide_byte
  mixed =
      divide_bits-injective 8 _ _ (bit_xor-lt 32 r (x * 16777216) hr (omega arith))
        (bit_xor-lt 32 s (y * 16777216) hs (omega arith))
        (sym (crc_step-divide_byte r x hr hx) ∙ e ∙ crc_step-divide_byte s y hs hy)

  pub crc_step-same_byte : x ≡ y → r ≡ s
  crc_step-same_byte same =
      bit_xor-right_injective r s (x * 16777216)
        (mixed ∙ ap (λ z. bit_xor s (z * 16777216)) (sym same))

  crc_step-same_crc : r ≡ s → x ≡ y
  crc_step-same_crc same = omega (
    arith,
    bit_xor-right_injective (x * 16777216) (y * 16777216) r (
        bit_xor_comm (x * 16777216) r
        ∙ mixed
        ∙ ap (λ z. bit_xor z (y * 16777216)) (sym same)
        ∙ bit_xor_comm r (y * 16777216)),
  )

-- Two blocks that differ at `k` alone.
pub record DifferAt (k : ℕ) (a b : Buffer) : Type 0 where
  pub a_bytes : (j : ℕ) → IsByte (a j)
  pub b_bytes : (j : ℕ) → IsByte (b j)
  pub changed : a k ≢ b k
  pub kept : (j : ℕ) → j ≢ k → a j ≡ b j

module _ (k : ℕ) (a b : Buffer) (d : DifferAt k a b) where
  -- The loops from the same state, over bytes that are the same.
  pub crc_loop_kept :
      (left i r : ℕ) → (i + left ≤ k) ⊎ (k < i) → crc_loop left i r a ≡ crc_loop left i r b
  unfolding crc_loop
  crc_loop_kept zero i r h = refl
  crc_loop_kept (suc left) i r h =
      ap (λ x. crc_loop left (i + 1) (crc_step r x) a) (d.kept i (ground arith))
      ∙ crc_loop_kept left (i + 1) (crc_step r (b i)) (ground arith)

  -- Different states stay different over the same bytes.
  crc_loop_apart :
      (left i r s : ℕ)
      → k < i
      → r < 4294967296
      → s < 4294967296
      → r ≢ s
      → crc_loop left i r a ≢ crc_loop left i s b
  unfolding crc_loop
  crc_loop_apart zero i r s h hr hs ne = ne
  crc_loop_apart (suc left) i r s h hr hs ne =
      crc_loop_apart left (i + 1) (crc_step r (a i)) (crc_step s (b i)) (omega arith)
        (crc_step-lt r (a i) hr (d.a_bytes i)) (crc_step-lt s (b i) hs (d.b_bytes i))
        λ e. ne (
          crc_step-same_byte r s (a i) (b i) hr hs (d.a_bytes i) (d.b_bytes i) e
            (d.kept i (omega arith)))

  crc_loop_changed :
      (left i r : ℕ)
      → i ≤ k
      → k < i + left
      → r < 4294967296
      → crc_loop left i r a ≢ crc_loop left i r b
  unfolding crc_loop
  crc_loop_changed zero i r h g hr = absurd (omega arith)
  crc_loop_changed (suc left) i r h g hr = elim (ℕ_discrete i k) [
    | yes here ↦
        crc_loop_apart left (i + 1) (crc_step r (a i)) (crc_step r (b i)) (omega (arith, here))
          (crc_step-lt r (a i) hr (d.a_bytes i)) (crc_step-lt r (b i) hr (d.b_bytes i))
          λ e. d.changed (
            subst (λ j. a j ≡ b j) here
              (crc_step-same_crc r r (a i) (b i) hr hr (d.a_bytes i) (d.b_bytes i) e refl))
    | no later ↦
        subst
          (λ x. crc_loop left (i + 1) (crc_step r (a i)) a ≢ crc_loop left (i + 1) (crc_step r x) b)
          (d.kept i later)
          (crc_loop_changed left (i + 1) (crc_step r (a i)) (omega arith) (omega arith)
            (crc_step-lt r (a i) hr (d.a_bytes i)))
  ]

  -- A block and the same block with one byte changed have different checksums.
  pub crc32_changed : (len : ℕ) → k < len → crc32 a len ≢ crc32 b len
  unfolding crc32
  crc32_changed len h = crc_loop_changed len 0 0xffffffff (omega arith) (omega arith) (omega arith)
