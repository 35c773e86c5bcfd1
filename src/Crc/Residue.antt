-- ===== src/Crc/Residue.antt =====
-- `validate_crc` of Server.cpp, against the checksum of the whole block with its checksum.
use native.Mathlib.Nat.{zero-add, add-zero, suc-add}
use audio_server.Common.{
  ℕ, zero, suc, ◌+◌, ◌-◌, ◌*◌, ◌/◌, ◌%◌, ◌≤◌, ◌<◌, ◌≡◌, ◌↔◌, refl, ap, subst, ◌∙◌, sym, true, some,
  ==→eq, ==_refl, ◌==◌, arith, some_eq,
}
use audio_server.Common.Words.{IsByte}
use audio_server.Common.Xor.{bit_xor_self, bit_xor-zero}
use audio_server.Common.Buffers.{Buffer}
use audio_server.Crc.{crc_step, crc_loop, crc32, validate_crc}
use audio_server.Crc.Table.{crc_table}
use audio_server.Crc.Checksum.{crc_step-lt, crc32-lt}
use audio_server.Crc.Injective.{crc_step-same_byte}
use audio_server.Crc.Validate.{stored_crc, validate_crc_iff}

-- The byte that equals the top byte of the checksum takes it away.
crc_step-top : (r x : ℕ) → r / 16777216 ≡ x → crc_step r x ≡ r * 256 % 4294967296
unfolding crc_step crc_table
crc_step-top r x e = rw (e, bit_xor_self x) (bit_xor-zero (r * 256 % 4294967296))

-- Four bytes after the checksum `r`.
abbrev after_four : ℕ → ℕ → ℕ → ℕ → ℕ → ℕ
after_four r a b c d = crc_step (crc_step (crc_step (crc_step r a) b) c) d

-- The bytes of a number leave nothing of it.
after_four_lem :
    (a b c d : ℕ)
    → IsByte a
    → IsByte b
    → IsByte c
    → IsByte d
    → after_four (a * 16777216 + b * 65536 + c * 256 + d) a b c d ≡ 0
after_four_lem a b c d ha hb hc hd =
    ap (λ r. crc_step (crc_step (crc_step r b) c) d) (crc_step-top _ a (omega arith))
    ∙ ap (λ r. crc_step (crc_step r c) d) (crc_step-top _ b (omega arith))
    ∙ ap (λ r. crc_step r d) (crc_step-top _ c (omega arith))
    ∙ crc_step-top _ d (omega arith)
    ∙ omega arith

-- Different checksums stay different.
after_four_injective :
    (r s a b c d : ℕ)
    → r < 4294967296
    → s < 4294967296
    → IsByte a
    → IsByte b
    → IsByte c
    → IsByte d
    → after_four r a b c d ≡ after_four s a b c d
    → r ≡ s
after_four_injective r s a b c d hr hs ha hb hc hd e = back r s a hr hs ha (
    back _ _ b (crc_step-lt r a hr ha) (crc_step-lt s a hs ha) hb (
      back _ _ c (crc_step-lt _ b (crc_step-lt r a hr ha) hb)
        (crc_step-lt _ b (crc_step-lt s a hs ha) hb) hc
        (back _ _ d (crc_step-lt _ c (crc_step-lt _ b (crc_step-lt r a hr ha) hb) hc)
          (crc_step-lt _ c (crc_step-lt _ b (crc_step-lt s a hs ha) hb) hc) hd e)))
  where
    back :
        (x y z : ℕ)
        → x < 4294967296
        → y < 4294967296
        → IsByte z
        → crc_step x z ≡ crc_step y z
        → x ≡ y
    back x y z hx hy hz e' = crc_step-same_byte x y z z hx hy hz hz e' refl

crc_loop-append :
    (m n i r : ℕ) (input : Buffer)
    → crc_loop (m + n) i r input ≡ crc_loop n (i + m) (crc_loop m i r input) input
unfolding crc_loop
crc_loop-append zero n i r input = rw (zero-add n, add-zero i) refl
crc_loop-append (suc m) n i r input = rw (suc-add m n) (
    crc_loop-append m n (i + 1) (crc_step r (input i)) input
    ∙ ap (λ j. crc_loop n j (crc_loop m (i + 1) (crc_step r (input i)) input) input) (omega arith))

module _ (cache : Buffer) (m : ℕ) (bytes : (j : ℕ) → IsByte (cache j)) where
  four_more :
      crc32 cache (m + 4)
      ≡ after_four (crc32 cache m) (cache m) (cache (m + 1)) (cache (m + 2)) (cache (m + 3))
  unfolding crc32 crc_loop
  four_more = crc_loop-append m 4 0 0xffffffff cache ∙ rw (zero-add m, two_more, three_more) refl
    where
      two_more : m + 1 + 1 ≡ m + 2
      two_more = omega arith

      three_more : m + 2 + 1 ≡ m + 3
      three_more = omega arith

  stored_crc_lem :
      stored_crc cache (m + 4)
      ≡ cache m * 16777216 + cache (m + 1) * 65536 + cache (m + 2) * 256 + cache (m + 3)
  unfolding stored_crc
  stored_crc_lem = grind arith

  residue : (validate_crc cache (m + 4) ≡ some true) ↔ (crc32 cache (m + 4) ≡ 0)
  residue = (passes, back)
    where
      nothing_left :
          after_four
            (stored_crc cache (m + 4))
            (cache m)
            (cache (m + 1))
            (cache (m + 2))
            (cache (m + 3))
          ≡ 0
      nothing_left =
          ap (λ r. after_four r (cache m) (cache (m + 1)) (cache (m + 2)) (cache (m + 3)))
            stored_crc_lem
          ∙ after_four_lem _ _ _ _ (bytes m) (bytes (m + 1)) (bytes (m + 2)) (bytes (m + 3))

      tested : validate_crc cache (m + 4) ≡ some (crc32 cache m == stored_crc cache (m + 4))
      tested =
          validate_crc_iff cache (m + 4) bytes (omega arith)
          ∙ ap (λ j. some (crc32 cache j == stored_crc cache (m + 4))) (omega arith)

      passes : validate_crc cache (m + 4) ≡ some true → crc32 cache (m + 4) ≡ 0
      passes e =
          four_more
          ∙ ap (λ r. after_four r (cache m) (cache (m + 1)) (cache (m + 2)) (cache (m + 3)))
              (==→eq _ _ (some_eq _ _ (sym tested ∙ e)))
          ∙ nothing_left

      back : crc32 cache (m + 4) ≡ 0 → validate_crc cache (m + 4) ≡ some true
      back e =
          tested
          ∙ ap (λ r. some (r == stored_crc cache (m + 4)))
              (after_four_injective (crc32 cache m) (stored_crc cache (m + 4)) (cache m)
                (cache (m + 1)) (cache (m + 2)) (cache (m + 3)) (crc32-lt cache m bytes)
                (omega
                  (arith, stored_crc_lem, bytes m, bytes (m + 1), bytes (m + 2), bytes (m + 3)))
                (bytes m) (bytes (m + 1)) (bytes (m + 2)) (bytes (m + 3))
                (sym four_more ∙ e ∙ sym nothing_left))
          ∙ ap some (==_refl _)

-- A block of at least four bytes passes the test exactly when the checksum of the whole block, with
-- the checksum at its end, is 0.
pub validate_crc-crc32 :
    (cache : Buffer) (n : ℕ)
    → ((j : ℕ) → IsByte (cache j))
    → 4 ≤ n
    → (validate_crc cache n ≡ some true) ↔ (crc32 cache n ≡ 0)
validate_crc-crc32 cache n bytes h =
    subst (λ k. (validate_crc cache k ≡ some true) ↔ (crc32 cache k ≡ 0)) whole
      (residue cache (n - 4) bytes)
  where
    whole : n - 4 + 4 ≡ n
    whole = omega arith
