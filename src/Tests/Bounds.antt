-- ===== src/Tests/Bounds.antt =====
-- A message with something else far behind it in the buffer.
use audio_server.Common.{ℕ, ◌≤◌, ◌≡◌, sym, arith}
use audio_server.Common.Buffers.{Buffer, of_bytes, store, store_ne}
use audio_server.Message.{parse_message}
use audio_server.Message.Bounds.{Agree, parse_message-bounds}
use audio_server.Tests.Inputs.{fresh, setup_bytes}

abbrev alone : Buffer
alone = of_bytes setup_bytes

abbrev followed : Buffer
followed = store 20000 255 alone

alone-Agree : Agree 16387 alone followed
alone-Agree j h = sym (store_ne 20000 255 alone j (λ e. omega (arith, e, h)))

parse_message-bounds_example :
    (parse_message fresh alone ≡ parse_message fresh followed)
    × ((j : ℕ) → 16384 ≤ j → (parse_message fresh alone).0.message_data j ≡ fresh.message_data j)
parse_message-bounds_example = parse_message-bounds fresh alone followed alone-Agree
