-- ===== src/Crc/Checksum.antt =====
-- `crc32` of crc.cpp and the division of the whole block by the polynomial.
use audio_server.Common.{ℕ, zero, suc, ◌+◌, ◌*◌, ◌≤◌, ◌<◌, ◌≡◌, refl, ap, ◌∙◌, List, [], ◌∷◌, arith}
use audio_server.Common.Words.{IsByte}
use audio_server.Common.Xor.{bit_xor, bit_xor-lt}
use audio_server.Common.Buffers.{Buffer, slice}
use audio_server.Crc.{crc_step, crc_loop, crc32}
use audio_server.Crc.Bitwise.{divide_byte}
use audio_server.Crc.Linear.{divide_bits-lt, crc_step-divide_byte}

-- The remainder of a list of bytes, from the remainder of what stands before it.
unfoldable pub divide : ℕ → List ℕ → ℕ
divide r [] = r
divide r (x ∷ xs) = divide (divide_byte r x) xs

pub divide_byte-lt : (r x : ℕ) → r < 4294967296 → IsByte x → divide_byte r x < 4294967296
unfolding divide_byte
divide_byte-lt r x hr hx =
    divide_bits-lt 8 (bit_xor r (x * 16777216)) (bit_xor-lt 32 r (x * 16777216) hr (omega arith))

pub crc_step-lt : (crc x : ℕ) → crc < 4294967296 → IsByte x → crc_step crc x < 4294967296
crc_step-lt crc x hc hx = rw (crc_step-divide_byte crc x hc hx) (divide_byte-lt crc x hc hx)

crc_loop-divide :
    (left i crc : ℕ) (input : Buffer)
    → crc < 4294967296
    → ((j : ℕ) → IsByte (input j))
    → crc_loop left i crc input ≡ divide crc (slice input i left)
unfolding crc_loop divide slice
crc_loop-divide zero i crc input hc bytes = refl
crc_loop-divide (suc left) i crc input hc bytes =
    crc_loop-divide left (i + 1) (crc_step crc (input i)) input
      (crc_step-lt crc (input i) hc (bytes i)) bytes
    ∙ ap (λ r. divide r (slice input (i + 1) left))
        (crc_step-divide_byte crc (input i) hc (bytes i))

-- `crc32` is the remainder of the block's bytes, divided bit by bit, from the start value of 32
-- ones: the table changes nothing.
pub crc32-divide :
    (input : Buffer) (len : ℕ)
    → ((j : ℕ) → IsByte (input j))
    → crc32 input len ≡ divide 0xffffffff (slice input 0 len)
unfolding crc32
crc32-divide input len bytes = crc_loop-divide len 0 0xffffffff input (omega arith) bytes

pub crc_loop-lt :
    (left i crc : ℕ) (input : Buffer)
    → crc < 4294967296
    → ((j : ℕ) → IsByte (input j))
    → crc_loop left i crc input < 4294967296
unfolding crc_loop
crc_loop-lt zero i crc input hc bytes = hc
crc_loop-lt (suc left) i crc input hc bytes =
    crc_loop-lt left (i + 1) (crc_step crc (input i)) input (crc_step-lt crc (input i) hc (bytes i))
      bytes

pub crc32-lt :
    (input : Buffer) (len : ℕ) → ((j : ℕ) → IsByte (input j)) → crc32 input len < 4294967296
unfolding crc32
crc32-lt input len bytes = crc_loop-lt len 0 0xffffffff input (omega arith) bytes

-- The loop reads nothing but the bytes that it runs over.
pub crc_loop_congr :
    (left i crc : ℕ) (a b : Buffer)
    → ((j : ℕ) → i ≤ j → j < i + left → a j ≡ b j)
    → crc_loop left i crc a ≡ crc_loop left i crc b
unfolding crc_loop
crc_loop_congr zero i crc a b same = refl
crc_loop_congr (suc left) i crc a b same =
    ap (λ x. crc_loop left (i + 1) (crc_step crc x) a) (same i (omega arith) (omega arith))
    ∙ crc_loop_congr left (i + 1) (crc_step crc (b i)) a b
        (λ j p q. same j (omega arith) (omega arith))

pub crc32_congr :
    (len : ℕ) (a b : Buffer) → ((j : ℕ) → j < len → a j ≡ b j) → crc32 a len ≡ crc32 b len
unfolding crc32
crc32_congr len a b same = crc_loop_congr len 0 0xffffffff a b (λ j p q. same j (omega arith))
