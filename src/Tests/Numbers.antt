-- ===== src/Tests/Numbers.antt =====
-- A number of four bytes in a buffer.
use audio_server.Common.{ℕ, ◌≤◌, ◌≡◌, arith}
use audio_server.PackData.{pack_primitive, parse_primitive}
use audio_server.PackData.RoundTrip.{parse_primitive-pack_primitive}
use audio_server.Tests.Inputs.{blank}

parse_primitive-pack_primitive_example :
    (parse_primitive 4 (pack_primitive 4 blank 0xcafe0102).bytes ≡ 0xcafe0102)
    × ((j : ℕ) → 4 ≤ j → (pack_primitive 4 blank 0xcafe0102).bytes j ≡ blank j)
parse_primitive-pack_primitive_example =
    parse_primitive-pack_primitive 4 0xcafe0102 blank (omega arith)
