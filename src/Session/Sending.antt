-- ===== src/Session/Sending.antt =====
-- What the session of Server.cpp sends, as frames at the start of the output buffer.
use audio_server.Common.{ℕ, ◌+◌, ◌/◌, ◌≤◌, ◌≡◌, refl, ◌∙◌, List, [], ◌∷◌, ◌++◌, arith}
use audio_server.Common.Words.{u8}
use audio_server.Common.Buffers.{Buffer, slice}
use audio_server.Protocol.{Packed, Argument, package_message_common}
use audio_server.Protocol.Frame.{
  length-encode_frame, Parameter, parameter, encode_frame, encode_parameter, encode_parameters,
  body_size,
}
use audio_server.Protocol.Arguments.{
  parameters_of, value_content, package_message_common-encode_frame,
}
use audio_server.Interface
use audio_server.Session.{Session, write, send_data}

-- The message that a call built: one frame of the server's version, of at most 19 bytes.
pub record IsAnswer (message_type : ℕ) (ps : List Parameter) (r : Packed) : Type 0 where
  pub frame : slice r.bytes 0 r.size ≡ encode_frame Interface.protocol_version message_type ps
  pub size : r.size ≡ 5 + body_size ps
  pub small : r.size ≤ 19

abbrev pub channel_id_parameter : ℕ → Parameter
channel_id_parameter id = parameter Interface.parameter_channel_id (u8 (id / 256) ∷ u8 id ∷ [])

abbrev pub error_code_parameter : ℕ → Parameter
error_code_parameter code =
    parameter Interface.parameter_error_code (u8 (code / 256) ∷ u8 code ∷ [])

abbrev pub block_id_parameter : ℕ → Parameter
block_id_parameter id =
    parameter Interface.parameter_block_id
      (u8 (id / 16777216) ∷ u8 (id / 65536) ∷ u8 (id / 256) ∷ u8 id ∷ [])

package_message_common-IsAnswer :
    (b : Buffer) (message_type : ℕ) (arguments : List Argument)
    → body_size (parameters_of arguments) ≤ 14
    → IsAnswer message_type
        (parameters_of arguments)
        (package_message_common b Interface.protocol_version message_type arguments)
package_message_common-IsAnswer b message_type arguments h =
    let wrote = package_message_common-encode_frame b 1 message_type arguments (omega arith) in
    let size = wrote.1 ∙ length-encode_frame 1 message_type (parameters_of arguments) in
    record { frame = wrote.0; size = size; small = omega (arith, size) }

pub channel_status-IsAnswer :
    (id : ℕ) (b : Buffer)
    → IsAnswer Interface.message_channel_status
        (channel_id_parameter id ∷ [])
        (Interface.channel_status Interface.protocol_version id b)
unfolding Interface.channel_status value_content body_size encode_parameters encode_parameter
channel_status-IsAnswer id b = package_message_common-IsAnswer b 0x12 _ (omega arith)

pub channel_error-IsAnswer :
    (id code : ℕ) (b : Buffer)
    → IsAnswer Interface.message_channel_error
        (channel_id_parameter id ∷ error_code_parameter code ∷ [])
        (Interface.channel_error Interface.protocol_version id code b)
unfolding Interface.channel_error value_content body_size encode_parameters encode_parameter
channel_error-IsAnswer id code b =
    package_message_common-IsAnswer b 0x14
      (Interface.channel_id_argument id ∷ Interface.error_code_argument code ∷ []) (omega arith)

pub pcm_data_send_response-IsAnswer :
    (id block : ℕ) (b : Buffer)
    → IsAnswer Interface.message_pcm_data_send_response
        (channel_id_parameter id ∷ block_id_parameter block ∷ [])
        (Interface.pcm_data_send_response Interface.protocol_version id block b)
unfolding Interface.pcm_data_send_response value_content body_size encode_parameters
    encode_parameter
pcm_data_send_response-IsAnswer id block b =
    package_message_common-IsAnswer b 0x21
      (Interface.channel_id_argument id ∷ Interface.block_id_argument block ∷ []) (omega arith)

-- `s'` is `s` with an answer in the output buffer, and one more operation that sends all of it.
pub record Answers (message_type : ℕ) (ps : List Parameter) (s s' : Session) : Type 0 where
  pub size : ℕ
  pub pending : s'.pending ≡ s.pending ++ write size ∷ []
  pub frame :
      slice s'.output_buffer 0 size ≡ encode_frame Interface.protocol_version message_type ps
  pub fits : size ≡ 5 + body_size ps
  pub small : size ≤ 19
  pub still_open : s'.socket_open ≡ s.socket_open
  pub same_info : s'.info ≡ s.info
  pub same_input : s'.input_buffer ≡ s.input_buffer
  pub same_channel : s'.channel_id ≡ s.channel_id

pub send_data-Answers :
    (build : Buffer → Packed) (message_type : ℕ) (ps : List Parameter) (s : Session)
    → ((b : Buffer) → IsAnswer message_type ps (build b))
    → Answers message_type ps s (send_data build s)
unfolding send_data
send_data-Answers build message_type ps s answer =
    let a = answer s.output_buffer in
    record {
      size = (build s.output_buffer).size;
      pending = refl;
      frame = a.frame;
      fits = a.size;
      small = a.small;
      still_open = refl;
      same_info = refl;
      same_input = refl;
      same_channel = refl;
    }
