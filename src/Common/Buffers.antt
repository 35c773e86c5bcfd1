-- ===== src/Common/Buffers.antt =====
-- Memory from a pointer on, as a function from offsets to bytes, and its finite pieces.
use Prim.Native.Nat.{ℕ, zero, suc, ◌+◌, ◌≤◌, ◌<◌}
use mathlib.Core.Path.{◌≡◌, refl, ap, ap₂, ◌∙◌}
use native.Mathlib.Nat.{zero-add, add-zero, suc-add}
use mathlib.Core.Logic.{◌≢◌}
use mathlib.Core.List.{List, [], ◌∷◌, ◌++◌}
use native.Mathlib.Numerals.{add-four}
use native.Mathlib.Omega.{arith}
use audio_server.Common.Tests.{◌==◌, if◌then◌else◌}
use audio_server.Common.Lists.{All, length, get_or}
use audio_server.Common.Words.{IsByte}

abbrev pub Buffer : Type 0
Buffer = ℕ → ℕ

-- `&buffer[offset]`.
abbrev pub shift : ℕ → Buffer → Buffer
shift offset buffer i = buffer (offset + i)

-- `buffer[i] = byte`.
unfoldable pub store : ℕ → ℕ → Buffer → Buffer
store i byte buffer j = if j == i then byte else buffer j

pub store_self : (i v : ℕ) (b : Buffer) → store i v b i ≡ v
unfolding store
store_self i v b = ground arith

pub store_ne : (i v : ℕ) (b : Buffer) (j : ℕ) → j ≢ i → store i v b j ≡ b j
unfolding store
store_ne i v b j ne = ground arith

-- `memcpy(dst, src, n)`.
unfoldable pub copy_bytes : ℕ → Buffer → Buffer → Buffer
copy_bytes zero src dst = dst
copy_bytes (suc n) src dst = store n (src n) (copy_bytes n src dst)

pub copy_bytes_inside : (n : ℕ) (src dst : Buffer) (j : ℕ) → j < n → copy_bytes n src dst j ≡ src j
unfolding copy_bytes store
copy_bytes_inside zero src dst j h = absurd (omega arith)
copy_bytes_inside (suc n) src dst j h = ground (arith, copy_bytes_inside n src dst j)

pub copy_bytes_outside : (n : ℕ) (src dst : Buffer) (j : ℕ) → n ≤ j → copy_bytes n src dst j ≡ dst j
unfolding copy_bytes store
copy_bytes_outside zero src dst j h = refl
copy_bytes_outside (suc n) src dst j h = ground (arith, copy_bytes_outside n src dst j)

-- The `n` bytes from offset `i` on.
unfoldable pub slice : Buffer → ℕ → ℕ → List ℕ
slice b i zero = []
slice b i (suc n) = b i ∷ slice b (i + 1) n

pub length-slice : (b : Buffer) (i n : ℕ) → length (slice b i n) ≡ n
unfolding slice
length-slice b i zero = refl
length-slice b i (suc n) = omega (arith, length-slice b (i + 1) n)

pub slice-append : (b : Buffer) (i m n : ℕ) → slice b i (m + n) ≡ slice b i m ++ slice b (i + m) n
unfolding slice
slice-append b i zero n = rw (zero-add, add-zero)
slice-append b i (suc m) n = rw (suc-add m n) (
    ap (λ r. b i ∷ r)
      (slice-append b (i + 1) m n ∙ ap (λ k. slice b (i + 1) m ++ slice b k n) (omega arith)))

-- A slice depends on its own bytes only.
pub slice_congr :
    (b c : Buffer) (i n : ℕ) → ((j : ℕ) → i ≤ j → j < i + n → b j ≡ c j) → slice b i n ≡ slice c i n
unfolding slice
slice_congr b c i zero h = refl
slice_congr b c i (suc n) h =
    ap₂ ◌∷◌ (h i (omega arith) (omega arith))
      (slice_congr b c (i + 1) n (λ j p q. h j (omega arith) (omega arith)))

pub slice-copy_bytes :
    (m : ℕ) (src dst : Buffer) (i n : ℕ)
    → i + n ≤ m
    → slice (copy_bytes m src dst) i n ≡ slice src i n
slice-copy_bytes m src dst i n h =
    slice_congr _ _ i n (λ j p q. copy_bytes_inside m src dst j (omega arith))

-- Memory filled with a list of bytes, and zero behind them.
unfoldable pub of_bytes : List ℕ → Buffer
of_bytes xs i = get_or xs i 0

pub slice-shift : (b : Buffer) (k i n : ℕ) → slice (shift k b) i n ≡ slice b (k + i) n
unfolding slice
slice-shift b k i zero = refl
slice-shift b k i (suc n) =
    ap (λ r. b (k + i) ∷ r) (slice-shift b k (i + 1) n ∙ ap (λ j. slice b j n) (omega arith))

pub slice-IsByte : (b : Buffer) (i n : ℕ) → ((j : ℕ) → IsByte (b j)) → All IsByte (slice b i n)
unfolding slice
slice-IsByte b i zero h = tt
slice-IsByte b i (suc n) h = (h i, slice-IsByte b (i + 1) n h)

pub slice_four :
    (b : Buffer) (i n : ℕ)
    → slice b i (n + 4) ≡ b i ∷ b (i + 1) ∷ b (i + 2) ∷ b (i + 3) ∷ slice b (i + 4) n
unfolding slice
slice_four b i n =
    rw (add-four n) (λ k. b i ∷ b (i + 1) ∷ b (two k) ∷ b (three k) ∷ slice b (four k) n)
  where
    two : i + 1 + 1 ≡ i + 2
    two = omega arith

    three : i + 1 + 1 + 1 ≡ i + 3
    three = omega arith

    four : i + 1 + 1 + 1 + 1 ≡ i + 4
    four = omega arith

pub of_bytes-IsByte : (xs : List ℕ) → All IsByte xs → (j : ℕ) → IsByte (of_bytes xs j)
unfolding of_bytes
of_bytes-IsByte [] h j = omega arith
of_bytes-IsByte (x ∷ xs) h zero = h.0
of_bytes-IsByte (x ∷ xs) h (suc j) = of_bytes-IsByte xs h.1 j
