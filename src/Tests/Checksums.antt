-- ===== src/Tests/Checksums.antt =====
-- Blocks of samples with checksums.
use audio_server.Common.{ℕ, ◌<◌, ◌≡◌, ◌↔◌, refl, true, false, some, [], ◌∷◌, arith}
use audio_server.Common.Words.{IsByte}
use audio_server.Common.Buffers.{Buffer, slice, store, of_bytes, of_bytes-IsByte}
use audio_server.Crc.{crc32, crc_loop, crc_step, pack_crc, validate_crc}
use audio_server.Crc.Table.{crc_table}
use audio_server.Crc.Checksum.{divide, crc32-divide}
use audio_server.Crc.Injective.{DifferAt}
use audio_server.Crc.Residue.{validate_crc-crc32}
use audio_server.Crc.Validate.{validate_crc-pack_crc, validate_crc_detects}
use audio_server.Tests.Inputs.{samples, samples-IsByte}

-- The check value of this checksum, of the digits 1 to 9.
check_value :
    crc32 (of_bytes (0x31 ∷ 0x32 ∷ 0x33 ∷ 0x34 ∷ 0x35 ∷ 0x36 ∷ 0x37 ∷ 0x38 ∷ 0x39 ∷ [])) 9
    ≡ 0x0376e6e7
unfolding crc32 crc_loop crc_step crc_table of_bytes
check_value = refl

crc32-divide_example : crc32 samples 16 ≡ divide 0xffffffff (slice samples 0 16)
crc32-divide_example = crc32-divide samples 16 samples-IsByte

validate_crc-pack_crc_example :
    (validate_crc (pack_crc samples 16).cache (pack_crc samples 16).pkg_len ≡ some true)
    × ((pack_crc samples 16).pkg_len ≡ 20)
    × ((j : ℕ) → j < 16 → (pack_crc samples 16).cache j ≡ samples j)
validate_crc-pack_crc_example = validate_crc-pack_crc samples 16 samples-IsByte (omega arith)

-- The digits 1 to 9 with their checksum, and the same with a 2 for the 1.
abbrev digits : Buffer
digits =
    of_bytes (
      0x31 ∷ 0x32 ∷ 0x33 ∷ 0x34 ∷ 0x35 ∷ 0x36 ∷ 0x37 ∷ 0x38 ∷ 0x39 ∷ 0x03 ∷ 0x76 ∷ 0xe6 ∷ 0xe7 ∷ [])

abbrev damaged : Buffer
damaged = store 0 0x32 digits

digits-IsByte : (j : ℕ) → IsByte (digits j)
digits-IsByte = of_bytes-IsByte _ (omega arith)

damaged-DifferAt : DifferAt 0 digits damaged
unfolding store of_bytes
damaged-DifferAt = record {
  a_bytes = digits-IsByte;
  b_bytes = λ j. ground (arith, digits-IsByte j);
  changed = λ e. omega (arith, e);
  kept = λ j h. ground arith;
}

digits_pass : validate_crc digits 13 ≡ some true
unfolding validate_crc crc32 crc_loop crc_step crc_table of_bytes
digits_pass = refl

validate_crc_detects_example : validate_crc damaged 13 ≡ some false
validate_crc_detects_example =
    validate_crc_detects 0 digits damaged damaged-DifferAt 13 (omega arith) (omega arith)
      digits_pass

validate_crc-crc32_example : (validate_crc digits 13 ≡ some true) ↔ (crc32 digits 13 ≡ 0)
validate_crc-crc32_example = validate_crc-crc32 digits 13 digits-IsByte (omega arith)
