-- ===== src/Common/Int.antt =====
-- The results of C functions: an `int`, negative for an error.
use Prim.Native.Nat.{ℕ, zero, suc, ◌%◌}
use mathlib.Core.Bool.{Bool, true, false}
use audio_server.Common.Tests.{ltb, ◌==◌}

-- `negsuc n` is -(n + 1).
pub data ℤ : Type 0 where
  pos : ℕ → ℤ
  negsuc : ℕ → ℤ

-- `r < 0`.
abbrev pub is_negative : ℤ → Bool
is_negative (pos n) = false
is_negative (negsuc n) = true

-- `if (r)`; a pointer is null where this is false.
abbrev pub is_set : ℤ → Bool
is_set (pos zero) = false
is_set (pos (suc n)) = true
is_set (negsuc n) = true

-- `r < n`, for an `n` that is not negative.
abbrev pub less_than : ℤ → ℕ → Bool
less_than (pos k) n = ltb k n
less_than (negsuc k) n = true

-- `r > n`, for an `n` that is not negative.
abbrev pub more_than : ℤ → ℕ → Bool
more_than (pos k) n = ltb n k
more_than (negsuc k) n = false

abbrev pub to_ℕ : ℤ → ℕ
to_ℕ (pos n) = n
to_ℕ (negsuc n) = 0

-- `r & 1`, in two's complement.
abbrev pub is_odd : ℤ → Bool
is_odd (pos n) = n % 2 == 1
is_odd (negsuc n) = n % 2 == 0
