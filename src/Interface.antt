-- ===== src/Interface.antt =====
-- interface.h, interface_constants.h and interface.cpp: the messages of the audio protocol, and
-- the class `Interface` that reads them.
pub mod Sent
pub mod Accepted
pub mod RoundTrip
use audio_server.Common.{ℕ, ◌*◌, List, [], ◌∷◌, Option}
use audio_server.Common.Buffers.{Buffer}
use audio_server.Protocol.{
  Packed, Argument, ushort_value, uint_value, bytes_value, ushort, uint, package_message_common,
}
use audio_server.Message.{CommonMessage, get_parameter_value, get_parameter_content}

abbrev pub protocol_version : ℕ
protocol_version = 1

abbrev pub max_data_block_size : ℕ
max_data_block_size = 16 * 1024

abbrev pub message_channel_setup : ℕ
message_channel_setup = 0x10

abbrev pub message_channel_test : ℕ
message_channel_test = 0x11

abbrev pub message_channel_status : ℕ
message_channel_status = 0x12

abbrev pub message_channel_close : ℕ
message_channel_close = 0x13

abbrev pub message_channel_error : ℕ
message_channel_error = 0x14

abbrev pub message_pcm_data_send_request : ℕ
message_pcm_data_send_request = 0x20

abbrev pub message_pcm_data_send_response : ℕ
message_pcm_data_send_response = 0x21

abbrev pub parameter_channel_id : ℕ
parameter_channel_id = 0x01

abbrev pub parameter_block_id : ℕ
parameter_block_id = 0x02

abbrev pub parameter_block_data : ℕ
parameter_block_data = 0x03

abbrev pub parameter_crc : ℕ
parameter_crc = 0x04

abbrev pub parameter_error_code : ℕ
parameter_error_code = 0x05

abbrev pub error_unsupported_protocol_version : ℕ
error_unsupported_protocol_version = 0x01

abbrev pub error_no_payload : ℕ
error_no_payload = 0x02

abbrev pub error_crc_invalid : ℕ
error_crc_invalid = 0x03

abbrev pub error_repeated_block : ℕ
error_repeated_block = 0x04

abbrev pub error_unknown_message_type : ℕ
error_unknown_message_type = 0x05

abbrev pub error_unknown_error : ℕ
error_unknown_error = 0x7000

-- The arguments of `package_message_common` for each parameter of the protocol.
abbrev pub channel_id_argument : ℕ → Argument
channel_id_argument id = record { parameter_type = parameter_channel_id; value = ushort_value id }

abbrev pub block_id_argument : ℕ → Argument
block_id_argument id = record { parameter_type = parameter_block_id; value = uint_value id }

abbrev pub block_data_argument : Buffer → ℕ → Argument
block_data_argument block n = record {
  parameter_type = parameter_block_data;
  value = bytes_value block n;
}

abbrev pub crc_argument : ℕ → Argument
crc_argument crc = record { parameter_type = parameter_crc; value = uint_value crc }

abbrev pub error_code_argument : ℕ → Argument
error_code_argument code = record {
  parameter_type = parameter_error_code;
  value = ushort_value code;
}

unfoldable pub channel_setup : ℕ → ℕ → Buffer → Packed
channel_setup version channel_id output_buffer =
    package_message_common output_buffer version message_channel_setup
      (channel_id_argument channel_id ∷ [])

unfoldable pub channel_test : ℕ → ℕ → Buffer → Packed
channel_test version channel_id output_buffer =
    package_message_common output_buffer version message_channel_test
      (channel_id_argument channel_id ∷ [])

unfoldable pub channel_status : ℕ → ℕ → Buffer → Packed
channel_status version channel_id output_buffer =
    package_message_common output_buffer version message_channel_status
      (channel_id_argument channel_id ∷ [])

unfoldable pub channel_close : ℕ → ℕ → Buffer → Packed
channel_close version channel_id output_buffer =
    package_message_common output_buffer version message_channel_close
      (channel_id_argument channel_id ∷ [])

unfoldable pub channel_error : ℕ → ℕ → ℕ → Buffer → Packed
channel_error version channel_id error_code output_buffer =
    package_message_common output_buffer version message_channel_error
      (channel_id_argument channel_id ∷ error_code_argument error_code ∷ [])

unfoldable pub pcm_data_send_request : ℕ → ℕ → ℕ → Buffer → ℕ → ℕ → Buffer → Packed
pcm_data_send_request version channel_id block_id block_data data_length crc output_buffer =
    package_message_common output_buffer version message_pcm_data_send_request (
      channel_id_argument channel_id
      ∷ block_id_argument block_id
      ∷ block_data_argument block_data data_length
      ∷ crc_argument crc
      ∷ [])

unfoldable pub pcm_data_send_response : ℕ → ℕ → ℕ → Buffer → Packed
pcm_data_send_response version channel_id block_id output_buffer =
    package_message_common output_buffer version message_pcm_data_send_response
      (channel_id_argument channel_id ∷ block_id_argument block_id ∷ [])

-- The getters of the class `Interface`, which adds no state to `CommonMessage`.
unfoldable pub get_channel_id : CommonMessage → Option ℕ
get_channel_id info = get_parameter_value ushort info parameter_channel_id

unfoldable pub get_block_id : CommonMessage → Option ℕ
get_block_id info = get_parameter_value uint info parameter_block_id

unfoldable pub get_block_data : CommonMessage → Option (List ℕ)
get_block_data info = get_parameter_content info parameter_block_data 0

unfoldable pub get_crc : CommonMessage → Option ℕ
get_crc info = get_parameter_value uint info parameter_crc

unfoldable pub get_error_code : CommonMessage → Option ℕ
get_error_code info = get_parameter_value ushort info parameter_error_code
