-- ===== src/Crc/Validate.antt =====
-- `pack_crc` and `validate_crc` of Server.cpp.
use native.Mathlib.Decide.{dec_lt}
use audio_server.Common.{
  ℕ, ◌+◌, ◌-◌, ◌*◌, ◌/◌, ◌≤◌, ◌<◌, ◌≡◌, ◌≢◌, ap, ap₂, ◌∙◌, sym, true, false, some, le→ltb, ==→eq,
  ne→==, subst, ==_refl, ◌==◌, arith, some_eq,
}
use audio_server.Common.Words.{u8, IsByte}
use audio_server.Common.Buffers.{Buffer, store}
use audio_server.Crc.{crc32, pack_crc, validate_crc}
use audio_server.Crc.Checksum.{crc32-lt, crc32_congr}
use audio_server.Crc.Injective.{DifferAt, crc32_changed}

-- The checksum that is stored in the last four bytes of a block.
unfoldable pub stored_crc : Buffer → ℕ → ℕ
stored_crc cache pkg_len =
    cache (pkg_len - 4) * 16777216
    + cache (pkg_len - 3) * 65536
    + cache (pkg_len - 2) * 256
    + cache (pkg_len - 1)

-- What `validate_crc` compares, for a block of four bytes at least.
pub validate_crc_iff :
    (cache : Buffer) (n : ℕ)
    → ((j : ℕ) → IsByte (cache j))
    → 4 ≤ n
    → (validate_crc cache n ≡ some (crc32 cache (n - 4) == stored_crc cache n))
unfolding validate_crc stored_crc
validate_crc_iff cache n bytes h = rw (le→ltb n 4 h) (
    ap (λ v. some (crc32 cache (n - 4) == v))
      (omega (arith, bytes (n - 4), bytes (n - 3), bytes (n - 2), bytes (n - 1))))

module _ (cache : Buffer) (n : ℕ) where
  packed_bytes :
      ((j : ℕ) → j < n → (pack_crc cache n).cache j ≡ cache j)
      × ((pack_crc cache n).cache n ≡ u8 (crc32 cache n / 16777216))
      × ((pack_crc cache n).cache (n + 1) ≡ u8 (crc32 cache n / 65536))
      × ((pack_crc cache n).cache (n + 2) ≡ u8 (crc32 cache n / 256))
      × ((pack_crc cache n).cache (n + 3) ≡ u8 (crc32 cache n))
  unfolding pack_crc store
  packed_bytes = (λ j h. ground arith, ground arith, ground arith, ground arith, ground arith)

  stored_crc-pack_crc :
      ((j : ℕ) → IsByte (cache j)) → stored_crc (pack_crc cache n).cache (n + 4) ≡ crc32 cache n
  unfolding stored_crc
  stored_crc-pack_crc bytes =
      rw (four, three, two, one)
        (rw (packed_bytes.1, packed_bytes.2, packed_bytes.3, packed_bytes.4)
          (omega (arith, crc32-lt cache n bytes)))
    where
      four : n + 4 - 4 ≡ n
      four = omega arith

      three : n + 4 - 3 ≡ n + 1
      three = omega arith

      two : n + 4 - 2 ≡ n + 2
      two = omega arith

      one : n + 4 - 1 ≡ n + 3
      one = omega arith

  packed-IsByte : ((j : ℕ) → IsByte (cache j)) → (j : ℕ) → IsByte ((pack_crc cache n).cache j)
  unfolding pack_crc store
  packed-IsByte bytes j = ground (arith, bytes j)

  -- The block that `pack_crc` returns is four bytes longer, begins with the same bytes, and passes
  -- `validate_crc`, if its length fits 16 bits.
  pub validate_crc-pack_crc :
      ((j : ℕ) → IsByte (cache j))
      → n + 4 < 65536
      → (validate_crc (pack_crc cache n).cache (pack_crc cache n).pkg_len ≡ some true)
        × ((pack_crc cache n).pkg_len ≡ n + 4)
        × ((j : ℕ) → j < n → (pack_crc cache n).cache j ≡ cache j)
  validate_crc-pack_crc bytes fits = (
    ap (validate_crc (pack_crc cache n).cache) len
        ∙ validate_crc_iff (pack_crc cache n).cache (n + 4) (packed-IsByte bytes) (omega arith)
        ∙ ap some (ap₂ ◌==◌ same_crc (stored_crc-pack_crc bytes) ∙ ==_refl (crc32 cache n)),
    len,
    packed_bytes.0,
  )
    where
      len : (pack_crc cache n).pkg_len ≡ n + 4
      len = unfold pack_crc in omega arith

      same_crc : crc32 (pack_crc cache n).cache (n + 4 - 4) ≡ crc32 cache n
      same_crc =
          ap (crc32 (pack_crc cache n).cache) (omega arith)
          ∙ crc32_congr n (pack_crc cache n).cache cache packed_bytes.0

module _ (k : ℕ) (a b : Buffer) (d : DifferAt k a b) (n : ℕ) where
  abbrev Same : ℕ → Type 0
  Same j = a j ≡ b j

  -- Four bytes that make the same number are the same bytes.
  stored-Same :
      stored_crc a n ≡ stored_crc b n → Same (n - 4) × Same (n - 3) × Same (n - 2) × Same (n - 1)
  unfolding stored_crc
  stored-Same e = omega (
    arith,
    d.a_bytes (n - 4),
    d.a_bytes (n - 3),
    d.a_bytes (n - 2),
    d.a_bytes (n - 1),
    d.b_bytes (n - 4),
    d.b_bytes (n - 3),
    d.b_bytes (n - 2),
    d.b_bytes (n - 1),
  )

  stored_apart : 4 ≤ n → n - 4 ≤ k → k < n → stored_crc a n ≢ stored_crc b n
  stored_apart big low high e =
      let s = stored-Same e in
      let other =
        λ (j : ℕ) (same : Same j) (here : k ≡ j). d.changed (subst Same (sym here) same) in
      omega (arith, other (n - 4) s.0, other (n - 3) s.1, other (n - 2) s.2, other (n - 1) s.3)

  stored_kept : 4 ≤ n → k < n - 4 → stored_crc a n ≡ stored_crc b n
  unfolding stored_crc
  stored_kept big low = omega (
    arith,
    d.kept (n - 4) (omega arith),
    d.kept (n - 3) (omega arith),
    d.kept (n - 2) (omega arith),
    d.kept (n - 1) (omega arith),
  )

  -- The checksum and the stored one are no longer equal.
  no_match : 4 ≤ n → k < n → crc32 a (n - 4) ≡ stored_crc a n → crc32 b (n - 4) ≢ stored_crc b n
  no_match big inside passed e = elim (dec_lt k (n - 4)) [
    | yes early ↦ crc32_changed k a b d (n - 4) early (passed ∙ stored_kept big early ∙ sym e)
    | no late ↦
        stored_apart big (omega arith) inside
          (sym passed ∙ crc32_congr (n - 4) a b (λ j h. d.kept j (omega arith)) ∙ e)
  ]

  -- A block that passes `validate_crc` fails it once any one of its bytes, of the data or of the
  -- stored checksum, has been changed to another byte.
  pub validate_crc_detects :
      4 ≤ n → k < n → validate_crc a n ≡ some true → validate_crc b n ≡ some false
  validate_crc_detects big inside passed =
      validate_crc_iff b n d.b_bytes big
      ∙ ap some (ne→== (crc32 b (n - 4)) (stored_crc b n) (no_match big inside matched))
    where
      matched : crc32 a (n - 4) ≡ stored_crc a n
      matched = ==→eq _ _ (some_eq _ _ (sym (validate_crc_iff a n d.a_bytes big) ∙ passed))
