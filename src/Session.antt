-- ===== src/Session.antt =====
-- The class `server_session` of Server.cpp: the handlers of one connection. The calls of
-- boost::asio that start an operation put it into `pending`; the end of an operation calls its
-- handler (Session/Events). The class has no other state: a session without a pending operation is
-- destroyed with its socket, since nothing holds it any more.
pub mod Pcm
pub mod Dispatch
pub mod Sending
pub mod Switch
pub mod Replies
pub mod Events
pub mod Invariant
pub mod Reachable
pub mod Encode
pub mod Release
pub mod Order
pub mod Handled
pub mod Leaks
pub mod Phases
pub mod Blocks
pub mod Conversation
use audio_server.Common.{
  ℕ, zero, suc, ◌+◌, ◌-◌, ◌*◌, ◌/◌, Bool, true, false, Option, none, some, List, [], ◌∷◌, ◌++◌,
  length, ◌==◌, if◌then◌else◌,
}
use audio_server.Common.Buffers.{Buffer, of_bytes}
use audio_server.Protocol.{Packed, message_head_length}
use audio_server.Message.{CommonMessage, parse_message_head, parse_message}
use audio_server.Interface
use audio_server.Ffmpeg.{History, CodecContext, Pointer}
pub use audio_server.Ffmpeg.{Outcome, done, undefined, out_of_fuel}

-- `async_read` of the head and of a body, with the handlers `handle_read_header` and
-- `handle_read_body`, and `async_write` of so many bytes of the output buffer, with `handle_write`.
pub data Operation : Type 0 where
  read_head : Operation
  read_body : ℕ → Operation
  write : ℕ → Operation

pub record Session : Type 0 where
  pub socket_open : Bool
  pub input_buffer : Buffer
  pub output_buffer : Buffer
  pub info : CommonMessage
  pub channel_id : ℕ
  pub pending : List Operation

-- What the sessions share: the calls of libav so far, and `*pts_`, which is an `int64_t` that
-- starts at 0 and is never set to less.
pub record Shared : Type 0 where
  pub history : History
  pub pts : ℕ

-- What the constructor is given: the encoder, and the pointers of the resampler and the FIFO.
pub record Media : Type 0 where
  pub enc_ctx : CodecContext
  pub resample_context : Pointer
  pub audio_fifo : Pointer

-- `explicit server_session(…)`: both buffers are zeroed, and `info_` is a new message.
unfoldable pub new_session : CommonMessage → Session
new_session info = record {
  socket_open = true;
  input_buffer = λ _. 0;
  output_buffer = λ _. 0;
  info = info;
  channel_id = 0;
  pending = [];
}

unfoldable pub start_operation : Operation → Session → Session
start_operation op s = record s { pending = s.pending ++ op ∷ [] }

unfoldable pub start : Session → Session
unfolding start_operation
start s = start_operation read_head s

unfoldable pub do_close : Session → Session
do_close s = record s { socket_open = false }

-- A message is built in the output buffer, and as many bytes as its size are sent.
unfoldable pub send_data : (Buffer → Packed) → Session → Session
unfolding start_operation
send_data build s =
    let packed = build s.output_buffer in
    start_operation (write packed.size) (record s { output_buffer = packed.bytes })

unfoldable pub handle_read_header : Session → Bool → Session
unfolding do_close start_operation
handle_read_header s error =
    if error
    then do_close s
    else (let parsed = parse_message_head s.info s.input_buffer in
        let s' : Session = record s { info = parsed.0 } in
        if parsed.1
        then start_operation (read_body s'.info.message_body_length) s'
        else do_close s')

unfoldable pub handle_write : Session → Bool → Session
unfolding do_close start_operation
handle_write s error = if error then do_close s else start_operation read_head s

unfoldable pub send_error : ℕ → Session → Session
unfolding send_data
send_error code s =
    send_data (Interface.channel_error Interface.protocol_version s.channel_id code) s

unfoldable pub process_channel_test : Session → Session
unfolding send_data
process_channel_test s =
    send_data (Interface.channel_status Interface.protocol_version s.channel_id) s

unfoldable pub process_channel_setup : Session → Session
unfolding send_data
process_channel_setup s = elim (Interface.get_channel_id s.info) [
  | none ↦ s
  | some id ↦
      send_data (Interface.channel_status Interface.protocol_version id)
        (record s { channel_id = id })
]

unfoldable pub process_channel_status : Session → Session
unfolding start_operation
process_channel_status s = start_operation read_head s

unfoldable pub process_channel_close : Session → Session
unfolding do_close
process_channel_close s = do_close s

unfoldable pub process_channel_error : Session → Session
unfolding do_close
process_channel_error s = do_close s

unfoldable pub process_default : Session → Session
unfolding send_error
process_default s = send_error Interface.error_unknown_message_type s
