-- ===== src/Tests/Sessions.antt =====
-- Messages in the input buffer of a session.
use audio_server.Common.{◌<◌, ◌≡◌, refl, true, false, [], ◌∷◌, inl, inr, arith}
use audio_server.Common.Buffers.{Buffer}
use audio_server.Message.{parse_message}
use audio_server.Protocol.{package_message_common}
use audio_server.Protocol.Frame.{body_size, encode_parameters, encode_parameter}
use audio_server.Protocol.Arguments.{parameters_of, value_content}
use audio_server.Message.Parse.{IsFrame}
use audio_server.Interface
use audio_server.Interface.Sent.{sent_frame}
use audio_server.Session.{Session, Shared, Outcome, done, read_head}
use audio_server.Session.Dispatch.{handle_read_body}
use audio_server.Session.Sending.{Answers, channel_id_parameter, error_code_parameter}
use audio_server.Session.Replies.{
  channel_setup_answered, channel_test_answered, channel_status_continues, session_ends,
  unknown_type_answered, pcm_data_send_request_dropped,
}
use audio_server.Tests.Inputs.{blank, fresh, samples, samples-IsByte, steady, stereo, unused}

-- A session of channel 4 whose input buffer holds a message.
abbrev hearing : Buffer → Session
hearing message = record {
  socket_open = true;
  input_buffer = message;
  output_buffer = blank;
  info = fresh;
  channel_id = 4;
  pending = [];
}

abbrev after : Buffer → Outcome (Session × Shared)
after message = handle_read_body steady stereo 1 1 0 (hearing message) unused false

abbrev heard : Buffer → Session
heard message = record (hearing message) { info = (parse_message fresh message).0 }

abbrev setup_message : Buffer
setup_message = (Interface.channel_setup 1 7 blank).bytes

channel_setup_answered_example :
    (s' : Session) × (after setup_message ≡ done (s', unused))
    × (s'.channel_id ≡ 7)
    × Answers 0x12
        (channel_id_parameter 7 ∷ [])
        (record (heard setup_message) { channel_id = 7 })
        s'
channel_setup_answered_example =
    channel_setup_answered steady stereo 1 1 0 (hearing setup_message) unused 1 7 blank
      (omega arith) refl

abbrev test_message : Buffer
test_message = (Interface.channel_test 1 7 blank).bytes

channel_test_answered_example :
    (s' : Session) × (after test_message ≡ done (s', unused))
    × Answers 0x12 (channel_id_parameter 4 ∷ []) (heard test_message) s'
channel_test_answered_example =
    channel_test_answered steady stereo 1 1 0 (hearing test_message) unused 1 7 blank (omega arith)
      refl

abbrev status_message : Buffer
status_message = (Interface.channel_status 1 7 blank).bytes

channel_status_continues_example :
    after status_message ≡ done (record (heard status_message) { pending = read_head ∷ [] }, unused)
channel_status_continues_example =
    channel_status_continues steady stereo 1 1 0 (hearing status_message) unused 1 7 blank
      (omega arith) refl

abbrev close_message : Buffer
close_message = (Interface.channel_close 1 7 blank).bytes

session_ends_example :
    after close_message ≡ done (record (heard close_message) { socket_open = false }, unused)
session_ends_example =
    session_ends steady stereo 1 1 0 (hearing close_message) unused 1 7 0 blank (omega arith)
      (omega arith) (inl refl)

-- A message of the type 0x30.
abbrev odd_message : Buffer
odd_message = (package_message_common blank 1 0x30 (Interface.channel_id_argument 7 ∷ [])).bytes

odd_short : body_size (parameters_of (Interface.channel_id_argument 7 ∷ [])) < 16379
unfolding value_content body_size encode_parameters encode_parameter
odd_short = omega arith

odd_is_frame : IsFrame odd_message
unfolding value_content
odd_is_frame =
    sent_frame blank 1 0x30 (Interface.channel_id_argument 7) [] odd_message (omega arith)
      (omega arith) odd_short refl

unknown_type_answered_example :
    (s' : Session) × (after odd_message ≡ done (s', unused))
    × Answers 0x14 (channel_id_parameter 4 ∷ error_code_parameter 5 ∷ []) (heard odd_message) s'
unfolding odd_is_frame
unknown_type_answered_example =
    unknown_type_answered steady stereo 1 1 0 (hearing odd_message) unused odd_is_frame
      (inr (omega arith, λ e. omega (arith, e)))

abbrev request : Buffer
request = (Interface.pcm_data_send_request 1 7 70000 samples 16 0xdeadbeef blank).bytes

pcm_data_send_request_dropped_example :
    after request ≡ done (record (heard request) { channel_id = 7 }, unused)
pcm_data_send_request_dropped_example =
    pcm_data_send_request_dropped steady stereo 1 1 0 (hearing request) unused 1 7 70000 0xdeadbeef
      16 samples blank (omega arith) (omega arith) (omega arith) (omega arith) samples-IsByte refl
