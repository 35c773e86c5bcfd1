-- ===== src/Session/Conversation.antt =====
-- A connection as its client sees it: bytes go to the server, and answers come back.
pub mod Exchange
pub mod Run
pub mod Unique
use audio_server.Common.{
  ℕ, ◌/◌, ◌<◌, ◌≡◌, Bool, true, false, List, [], ◌∷◌, ◌++◌, length, All, arith,
}
use audio_server.Common.Words.{u8, IsByte}
use audio_server.Common.Buffers.{Buffer, slice}
use audio_server.Protocol.{Packed}
use audio_server.Protocol.Frame.{encode_frame}
use audio_server.Interface
use audio_server.Interface.RoundTrip.{ChannelMessage, setup, test, status, close, build}
use audio_server.Ffmpeg.{Library}
use audio_server.Message.{CommonMessage}
use audio_server.Session.{
  Session, Shared, Media, Operation, done, read_head, read_body, write, handle_read_header,
  handle_write,
}
use audio_server.Session.Dispatch.{handle_read_body}
use audio_server.Session.Events.{Step, head_read, body_read, written, Reach, next, arrived}
use audio_server.Session.Sending.{channel_id_parameter}

module _ (answer : Library) (media : Media) (packet_fuel frame_fuel : ℕ)
    (block_id : Session → ℕ) where
  -- Events of a session in which every operation succeeds, with the bytes that it reads and the
  -- messages that it writes. `block_id` is the value of the variable to which nothing is assigned.
  pub data Trace : Session × Shared → List ℕ → List (List ℕ) → Session × Shared → Type 0 where
    stay : (t : Session × Shared) → Trace t [] [] t
    reads_head :
        (s : Session) (shared : Shared) (rest : List Operation) (bytes received : List ℕ)
        (sent : List (List ℕ)) (v : Session × Shared)
        → s.pending ≡ read_head ∷ rest
        → All IsByte bytes
        → length bytes ≡ 5
        → Trace (handle_read_header (arrived 0 bytes rest s) false, shared) received sent v
        → Trace (s, shared) (bytes ++ received) sent v
    reads_body :
        (s : Session) (shared : Shared) (rest : List Operation) (n : ℕ) (bytes received : List ℕ)
        (sent : List (List ℕ)) (u v : Session × Shared)
        → s.pending ≡ read_body n ∷ rest
        → All IsByte bytes
        → length bytes ≡ n
        → handle_read_body answer media packet_fuel frame_fuel
            (block_id s)
            (arrived 5 bytes rest s)
            shared
            false
          ≡ done u
        → Trace u received sent v
        → Trace (s, shared) (bytes ++ received) sent v
    writes :
        (s : Session) (shared : Shared) (rest : List Operation) (n : ℕ) (received : List ℕ)
        (sent : List (List ℕ)) (v : Session × Shared)
        → s.pending ≡ write n ∷ rest
        → Trace (handle_write (record s { pending = rest }) false, shared) received sent v
        → Trace (s, shared) received (slice s.output_buffer 0 n ∷ sent) v

  -- What a trace leads to is a state that a session can come to.
  pub Trace-Reach :
      (info : CommonMessage) (first : Shared) {t v : Session × Shared} {received : List ℕ}
      {sent : List (List ℕ)}
      → Reach answer media packet_fuel frame_fuel info first t
      → Trace t received sent v
      → Reach answer media packet_fuel frame_fuel info first v
  Trace-Reach info first reached (stay t) = reached
  Trace-Reach info first reached
        (reads_head s shared rest bytes received sent v pending bytes-IsByte five more) =
      Trace-Reach info first
        (next reached
          (head_read s shared rest bytes false pending bytes-IsByte (omega (arith, five))))
        more
  Trace-Reach info first reached
        (reads_body s shared rest n bytes received sent u v pending bytes-IsByte all e more) =
      Trace-Reach info first
        (next reached (
          body_read s shared rest n bytes false (block_id s) u pending bytes-IsByte
            (omega (arith, all)) e))
        more
  Trace-Reach info first reached (writes s shared rest n received sent v pending more) =
      Trace-Reach info first (next reached (written s shared rest n false pending)) more

-- A message that a client builds in its memory `cache`.
pub record Request : Type 0 where
  pub message : ChannelMessage
  pub version : ℕ
  pub channel_id : ℕ
  pub cache : Buffer

abbrev pub request : ChannelMessage → ℕ → ℕ → Buffer → Request
request message version channel_id cache = record {
  message = message;
  version = version;
  channel_id = channel_id;
  cache = cache;
}

abbrev pub bytes_of : Request → List ℕ
bytes_of r =
    let packed = build r.message r.version r.channel_id r.cache in slice packed.bytes 0 packed.size

abbrev pub stream_of : List Request → List ℕ
stream_of [] = []
stream_of (r ∷ rs) = bytes_of r ++ stream_of rs

abbrev pub IsRequest : Request → Type 0
IsRequest r = IsByte r.version × (r.channel_id < 65536)

abbrev pub Continues : ChannelMessage → Type 0
Continues close = ⊥
Continues _ = Unit {0}

-- The specification of a channel: the number that the session keeps, and its answers.
abbrev pub status_of : ℕ → List ℕ
status_of channel_id =
    encode_frame Interface.protocol_version Interface.message_channel_status
      (channel_id_parameter channel_id ∷ [])

abbrev pub channel_after : ℕ → Request → ℕ
channel_after channel_id r = elim r.message [
  | setup ↦ r.channel_id
  | test ↦ channel_id
  | status ↦ channel_id
  | close ↦ channel_id
]

abbrev pub answers_to : ℕ → Request → List (List ℕ)
answers_to channel_id r = elim r.message [
  | setup ↦ status_of r.channel_id ∷ []
  | test ↦ status_of channel_id ∷ []
  | status ↦ []
  | close ↦ []
]

abbrev pub channel_after_all : ℕ → List Request → ℕ
channel_after_all channel_id [] = channel_id
channel_after_all channel_id (r ∷ rs) = channel_after_all (channel_after channel_id r) rs

abbrev pub answers_to_all : ℕ → List Request → List (List ℕ)
answers_to_all channel_id [] = []
answers_to_all channel_id (r ∷ rs) =
    answers_to channel_id r ++ answers_to_all (channel_after channel_id r) rs

-- The session is open and waits for the head of a message.
abbrev pub IsWaiting : Session → Type 0
IsWaiting s = (s.pending ≡ read_head ∷ []) × (s.socket_open ≡ true)
