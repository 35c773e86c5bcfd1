-- ===== src/Interface/RoundTrip.antt =====
-- The builders of interface.cpp, followed by the parser and the getters.
use audio_server.Common.{
  ℕ, ◌/◌, ◌≤◌, ◌<◌, ◌≡◌, refl, some, List, [], ◌∷◌, arith, length, length-append,
}
use audio_server.Common.Words.{u8, IsByte}
use audio_server.Common.Buffers.{Buffer, slice, length-slice, slice-IsByte}
use audio_server.Protocol.{Packed, package_message_common}
use audio_server.Protocol.Frame.{encode_parameter, encode_parameters, body_size}
use audio_server.Protocol.Arguments.{value_content}
use audio_server.Message.{CommonMessage, parse_message}
use audio_server.Message.Parse.{IsFrame}
use audio_server.Message.Lookup.{contents_of}
use audio_server.Message.Getters.{get_parameter_content-parse_message}
use audio_server.Interface
use audio_server.Interface.Sent.{Received, sent_frame}
use audio_server.Interface.Accepted.{Accepts, IsFrame-Accepts, get_ushort, get_uint}

-- The bytes of the checksum's parameter.
abbrev crc_bytes : ℕ → List ℕ
crc_bytes crc =
    0 ∷ 4 ∷ 0 ∷ 4 ∷ u8 (crc / 16777216) ∷ u8 (crc / 65536) ∷ u8 (crc / 256) ∷ u8 crc ∷ []

-- The messages that carry a channel's number alone.
pub data ChannelMessage : Type 0 where
  setup test status close : ChannelMessage

abbrev pub build : ChannelMessage → ℕ → ℕ → Buffer → Packed
build setup = Interface.channel_setup
build test = Interface.channel_test
build status = Interface.channel_status
build close = Interface.channel_close

abbrev pub type_of : ChannelMessage → ℕ
type_of setup = Interface.message_channel_setup
type_of test = Interface.message_channel_test
type_of status = Interface.message_channel_status
type_of close = Interface.message_channel_close

module _ (version channel_id : ℕ) (output input : Buffer) (m : CommonMessage)
    (id_fits : channel_id < 65536) where
  -- A message with the channel's number alone.
  channel_message :
      (message_type : ℕ)
      → message_type < 65536
      → Received
          (package_message_common output version message_type
            (Interface.channel_id_argument channel_id ∷ []))
          input
      → Accepts m input message_type version
        × (Interface.get_channel_id (parse_message m input).0 ≡ some channel_id)
  unfolding Interface.get_channel_id value_content contents_of body_size encode_parameters
      encode_parameter
  channel_message message_type type_fits received =
      (IsFrame-Accepts m input f, get_ushort m input f 1 channel_id [] id_fits refl)
    where
      f : IsFrame input
      f =
          sent_frame output version message_type (Interface.channel_id_argument channel_id) [] input
            type_fits (omega arith) (omega arith) received

  -- The four messages that carry a channel's number alone, below 65,536, are accepted with their
  -- type and version by a receiver whose input begins with one, and `get_channel_id` returns the
  -- number that was sent.
  pub channel_message_round_trip :
      (k : ChannelMessage)
      → Received (build k version channel_id output) input
      → Accepts m input (type_of k) version
        × (Interface.get_channel_id (parse_message m input).0 ≡ some channel_id)
  unfolding Interface.channel_setup Interface.channel_test Interface.channel_status
      Interface.channel_close
  channel_message_round_trip setup = channel_message 0x10 (omega arith)
  channel_message_round_trip test = channel_message 0x11 (omega arith)
  channel_message_round_trip status = channel_message 0x12 (omega arith)
  channel_message_round_trip close = channel_message 0x13 (omega arith)

  -- An error message whose channel and code are below 65,536 is accepted by a receiver whose input
  -- begins with it, and both of its numbers are read back.
  pub channel_error_round_trip :
      (error_code : ℕ)
      → error_code < 65536
      → Received (Interface.channel_error version channel_id error_code output) input
      → Accepts m input Interface.message_channel_error version
        × (Interface.get_channel_id (parse_message m input).0 ≡ some channel_id)
        × (Interface.get_error_code (parse_message m input).0 ≡ some error_code)
  unfolding Interface.get_channel_id Interface.get_error_code Interface.channel_error value_content
      contents_of body_size encode_parameters encode_parameter
  channel_error_round_trip error_code code_fits received = (
    IsFrame-Accepts m input f,
    get_ushort m input f 1 channel_id [] id_fits refl,
    get_ushort m input f 5 error_code [] code_fits refl,
  )
    where
      f : IsFrame input
      f =
          sent_frame output version 0x14 (Interface.channel_id_argument channel_id)
            (Interface.error_code_argument error_code ∷ []) input (omega arith) (omega arith)
            (omega arith) received

  -- The answer to a block of samples, with a channel below 65,536 and a 32-bit number of the
  -- block, is accepted by a receiver whose input begins with it, and both of its numbers are read
  -- back.
  pub pcm_data_send_response_round_trip :
      (block_id : ℕ)
      → block_id < 4294967296
      → Received (Interface.pcm_data_send_response version channel_id block_id output) input
      → Accepts m input Interface.message_pcm_data_send_response version
        × (Interface.get_channel_id (parse_message m input).0 ≡ some channel_id)
        × (Interface.get_block_id (parse_message m input).0 ≡ some block_id)
  unfolding Interface.get_channel_id Interface.get_block_id Interface.pcm_data_send_response
      value_content contents_of body_size encode_parameters encode_parameter
  pcm_data_send_response_round_trip block_id block_fits received = (
    IsFrame-Accepts m input f,
    get_ushort m input f 1 channel_id [] id_fits refl,
    get_uint m input f 2 block_id [] block_fits refl,
  )
    where
      f : IsFrame input
      f =
          sent_frame output version 0x21 (Interface.channel_id_argument channel_id)
            (Interface.block_id_argument block_id ∷ []) input (omega arith) (omega arith)
            (omega arith) received

  -- A block of at most 8192 bytes of samples, with a channel below 65,536 and 32-bit numbers for
  -- the block and the checksum, is accepted by a receiver whose input begins with the message; the
  -- channel, the block's number, its bytes and its checksum are read back.
  pub pcm_data_send_request_round_trip :
      (block_id crc data_length : ℕ) (block_data : Buffer)
      → block_id < 4294967296
      → crc < 4294967296
      → data_length ≤ 8192
      → ((j : ℕ) → IsByte (block_data j))
      → Received
          (Interface.pcm_data_send_request version channel_id block_id block_data data_length crc
            output)
          input
      → Accepts m input Interface.message_pcm_data_send_request version
        × (Interface.get_channel_id (parse_message m input).0 ≡ some channel_id)
        × (Interface.get_block_id (parse_message m input).0 ≡ some block_id)
        × (Interface.get_block_data (parse_message m input).0
            ≡ some (slice block_data 0 data_length))
        × (Interface.get_crc (parse_message m input).0 ≡ some crc)
  unfolding Interface.get_channel_id Interface.get_block_id Interface.get_block_data
      Interface.get_crc Interface.pcm_data_send_request value_content contents_of body_size
      encode_parameters encode_parameter
  pcm_data_send_request_round_trip block_id crc n block_data block_fits crc_fits n_fits bytes
        received =
      (
        IsFrame-Accepts m input f,
        get_ushort m input f 1 channel_id [] id_fits refl,
        get_uint m input f 2 block_id [] block_fits refl,
        get_parameter_content-parse_message m input f 3 0 (slice block_data 0 n)
            (omega (arith, size)) refl,
        get_uint m input f 4 crc [] crc_fits refl,
      )
    where
      size : length (slice block_data 0 n) ≡ n
      size = length-slice block_data 0 n

      f : IsFrame input
      f =
          sent_frame output version 0x20 (Interface.channel_id_argument channel_id)
            (Interface.block_id_argument block_id
              ∷ Interface.block_data_argument block_data n
              ∷ Interface.crc_argument crc
              ∷ [])
            input (omega arith)
            (
              omega arith,
              (
                omega arith,
                (
                  (omega arith, omega (arith, size), slice-IsByte block_data 0 n bytes),
                  omega arith,
                ),
              ),
            )
            (omega (arith, size, length-append (slice block_data 0 n) (crc_bytes crc))) received
