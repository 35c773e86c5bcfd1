-- ===== src/Tests/Wire.antt =====
-- Messages and their parser.
use audio_server.Common.{
  ℕ, ◌+◌, ◌≤◌, ◌<◌, ◌≡◌, ◌↔◌, refl, true, false, none, some, List, [], ◌∷◌, length, arith,
}
use audio_server.Common.Buffers.{Buffer, slice, store, copy_bytes, of_bytes}
use audio_server.Protocol.{
  Packed, ushort, package_message_common, package_message_head, package_parameters,
  package_message_parameter_template, package_message_parameter_content, cache_two, append_value,
  append_byte, append_parameter_head, unpack_message_head, unpack_parameter, unpack_parameter_t,
  read_value,
}
use audio_server.Protocol.Frame.{
  encode_frame, encode_head, encode_parameters, encode_parameter, body_size,
}
use audio_server.Protocol.Arguments.{
  parameters_of, value_content, package_message_common-encode_frame,
}
use audio_server.Message.{
  Scan, scan_parameters, scan_body, parse_message, get_parameter_value, get_parameter_content,
}
use audio_server.Message.Loop.{scan_parameters_total}
use audio_server.Message.Parse.{
  IsFrame, parsed, parse_message-encode_frame, parse_message_accepts_iff,
}
use audio_server.Message.Lookup.{contents_of, big_endian}
use audio_server.Message.Getters.{
  get_parameter_value-parse_message, get_parameter_value_stale, get_parameter_content-parse_message,
}
use audio_server.Interface
use audio_server.Interface.Accepted.{Accepts}
use audio_server.Interface.RoundTrip.{
  setup, channel_message_round_trip, channel_error_round_trip, pcm_data_send_response_round_trip,
  pcm_data_send_request_round_trip,
}
use audio_server.Tests.Inputs.{
  blank, storage, fresh, setup_message, setup_message-IsByte, channel_seven, samples,
  samples-IsByte,
}

-- The builder writes the bytes that are expected.
setup_is_built :
    slice (Interface.channel_setup 1 7 blank).bytes 0 11
    ≡ 1 ∷ 0 ∷ 0x10 ∷ 0 ∷ 6 ∷ 0 ∷ 1 ∷ 0 ∷ 2 ∷ 0 ∷ 7 ∷ []
unfolding Interface.channel_setup package_message_common package_message_head package_parameters
    package_message_parameter_template package_message_parameter_content cache_two append_value
    append_byte append_parameter_head store slice
setup_is_built = refl

-- The parser reads them, and the getter finds the channel.
setup_is_parsed :
    ((parse_message fresh setup_message).1 ≡ true)
    × ((parse_message fresh setup_message).0.parameter_positions ≡ 5 ∷ 11 ∷ [])
    × (Interface.get_channel_id (parse_message fresh setup_message).0 ≡ some 7)
    × (Interface.get_crc (parse_message fresh setup_message).0 ≡ none)
unfolding parse_message scan_body unpack_message_head unpack_parameter of_bytes copy_bytes store
    Interface.get_channel_id Interface.get_crc get_parameter_value unpack_parameter_t read_value
setup_is_parsed = (refl, refl, refl, refl)

-- A message with no parameter is refused.
empty_is_refused : (parse_message fresh (of_bytes (1 ∷ 0 ∷ 0x10 ∷ 0 ∷ 0 ∷ []))).1 ≡ false
unfolding parse_message scan_body unpack_message_head unpack_parameter of_bytes
empty_is_refused = refl

abbrev packed : Packed
packed = package_message_common blank 1 0x10 (Interface.channel_id_argument 7 ∷ [])

abbrev packed_frame : List ℕ
packed_frame = encode_frame 1 0x10 (parameters_of (Interface.channel_id_argument 7 ∷ []))

package_message_common-encode_frame_example :
    (slice packed.bytes 0 packed.size ≡ packed_frame)
    × (packed.size ≡ length packed_frame)
    × ((j : ℕ) → packed.size ≤ j → packed.bytes j ≡ blank j)
unfolding body_size encode_parameters encode_parameter value_content
package_message_common-encode_frame_example =
    package_message_common-encode_frame blank 1 0x10 (Interface.channel_id_argument 7 ∷ [])
      (omega arith)

setup_frame :
    slice setup_message 0 (5 + body_size (channel_seven ∷ []))
    ≡ encode_frame 1 0x10 (channel_seven ∷ [])
unfolding of_bytes slice body_size encode_frame encode_head encode_parameters encode_parameter
setup_frame = refl

setup_short : body_size (channel_seven ∷ []) < 16379
unfolding body_size encode_parameters encode_parameter
setup_short = omega arith

abbrev setup_is_frame : IsFrame setup_message
setup_is_frame = record {
  version = 1;
  message_type = 0x10;
  first = channel_seven;
  others = [];
  type_fits = omega arith;
  valid = omega arith;
  short = setup_short;
  bytes = setup_frame;
}

parse_message-encode_frame_example :
    parse_message fresh setup_message
    ≡ (parsed fresh setup_message 1 0x10 (channel_seven ∷ []), true)
parse_message-encode_frame_example =
    parse_message-encode_frame fresh setup_message 1 0x10 channel_seven [] (omega arith)
      (omega arith) setup_short setup_frame

parse_message_accepts_iff_example :
    ((parse_message fresh setup_message).1 ≡ true) ↔ IsFrame setup_message
parse_message_accepts_iff_example =
    parse_message_accepts_iff fresh setup_message setup_message-IsByte

scan_parameters_total_example : (s : Scan) × (scan_parameters 7 setup_message 6 5 ≡ some s)
scan_parameters_total_example =
    scan_parameters_total 7 setup_message 6 5 (omega arith) (omega arith)

get_parameter_value-parse_message_example :
    get_parameter_value ushort (parse_message fresh setup_message).0 1 ≡ some 7
unfolding contents_of big_endian
get_parameter_value-parse_message_example =
    get_parameter_value-parse_message fresh setup_message setup_is_frame ushort 1 (0 ∷ 7 ∷ []) []
      refl (omega arith)

-- The bytes of a checksum that an earlier message left where this message ends.
abbrev leftover : Buffer
leftover = of_bytes (0 ∷ 0 ∷ 0 ∷ 0 ∷ 0 ∷ 0 ∷ 0 ∷ 0 ∷ 0 ∷ 0 ∷ 0 ∷ 0 ∷ 5 ∷ 0 ∷ 2 ∷ 0 ∷ 3 ∷ [])

-- The setup of channel 7 has no error code, and the getter reports one.
get_parameter_value_stale_example :
    get_parameter_value ushort (parse_message (storage leftover) setup_message).0 5 ≡ some 3
unfolding contents_of body_size encode_parameters encode_parameter unpack_parameter_t
    unpack_parameter read_value of_bytes
get_parameter_value_stale_example =
    get_parameter_value_stale (storage leftover) setup_message setup_is_frame ushort 5 refl
      (omega arith)

get_parameter_content-parse_message_example :
    get_parameter_content (parse_message fresh setup_message).0 1 0 ≡ some (0 ∷ 7 ∷ [])
unfolding contents_of
get_parameter_content-parse_message_example =
    get_parameter_content-parse_message fresh setup_message setup_is_frame 1 0 (0 ∷ 7 ∷ [])
      (omega arith) refl

channel_message_round_trip_example :
    Accepts fresh (Interface.channel_setup 1 7 blank).bytes 0x10 1
    × (Interface.get_channel_id (parse_message fresh (Interface.channel_setup 1 7 blank).bytes).0
        ≡ some 7)
channel_message_round_trip_example =
    channel_message_round_trip 1 7 blank (Interface.channel_setup 1 7 blank).bytes fresh
      (omega arith) setup refl

channel_error_round_trip_example :
    Accepts fresh (Interface.channel_error 1 7 3 blank).bytes 0x14 1
    × (Interface.get_channel_id (parse_message fresh (Interface.channel_error 1 7 3 blank).bytes).0
        ≡ some 7)
    × (Interface.get_error_code (parse_message fresh (Interface.channel_error 1 7 3 blank).bytes).0
        ≡ some 3)
channel_error_round_trip_example =
    channel_error_round_trip 1 7 blank (Interface.channel_error 1 7 3 blank).bytes fresh
      (omega arith) 3 (omega arith) refl

abbrev response : Buffer
response = (Interface.pcm_data_send_response 1 7 70000 blank).bytes

pcm_data_send_response_round_trip_example :
    Accepts fresh response 0x21 1
    × (Interface.get_channel_id (parse_message fresh response).0 ≡ some 7)
    × (Interface.get_block_id (parse_message fresh response).0 ≡ some 70000)
pcm_data_send_response_round_trip_example =
    pcm_data_send_response_round_trip 1 7 blank response fresh (omega arith) 70000 (omega arith)
      refl

abbrev request : Buffer
request = (Interface.pcm_data_send_request 1 7 70000 samples 16 0xdeadbeef blank).bytes

pcm_data_send_request_round_trip_example :
    Accepts fresh request 0x20 1
    × (Interface.get_channel_id (parse_message fresh request).0 ≡ some 7)
    × (Interface.get_block_id (parse_message fresh request).0 ≡ some 70000)
    × (Interface.get_block_data (parse_message fresh request).0 ≡ some (slice samples 0 16))
    × (Interface.get_crc (parse_message fresh request).0 ≡ some 0xdeadbeef)
pcm_data_send_request_round_trip_example =
    pcm_data_send_request_round_trip 1 7 blank request fresh (omega arith) 70000 0xdeadbeef 16
      samples (omega arith) (omega arith) (omega arith) samples-IsByte refl
