-- ===== src/Session/Conversation/Exchange.antt =====
-- The exchange of messages of a client with a session.
use audio_server.Common.{ℕ, ◌/◌, ◌≡◌, refl, sym, ap, ◌∙◌, subst, false, List, [], ◌∷◌, ◌++◌, arith}
use audio_server.Common.Words.{u8, IsByte}
use audio_server.Common.Buffers.{Buffer, slice, store}
use audio_server.Protocol.{Packed, package_message_common}
use audio_server.Protocol.Frame.{
  Parameter, encode_frame, encode_head, encode_parameters, encode_parameter, body_size,
}
use audio_server.Protocol.Arguments.{package_message_common-encode_frame, value_content}
use audio_server.Interface
use audio_server.Interface.Sent.{Received}
use audio_server.Interface.RoundTrip.{ChannelMessage, setup, test, status, close, build, type_of}
use audio_server.Ffmpeg.{Library}
use audio_server.Message.{parse_message_head, take_head}
use audio_server.Protocol.{unpack_message_head}
use audio_server.Session.{
  Session, Shared, Media, done, read_head, read_body, write, handle_read_header, handle_write,
  start_operation,
}
use audio_server.Session.Dispatch.{handle_read_body}
use audio_server.Session.Events.{fill, arrived}
use audio_server.Session.Sending.{channel_id_parameter, Answers}
use audio_server.Session.Replies.{
  channel_setup_answered, channel_test_answered, channel_status_continues,
}
use audio_server.Session.Conversation.{
  Trace, stay, reads_head, reads_body, writes, Request, request, bytes_of, IsRequest, Continues,
  status_of, channel_after, answers_to, IsWaiting,
}

abbrev head_of : ChannelMessage → ℕ → List ℕ
head_of k version = version ∷ u8 (type_of k / 256) ∷ u8 (type_of k) ∷ 0 ∷ 6 ∷ []

abbrev body_of : ℕ → List ℕ
body_of channel_id = 0 ∷ 1 ∷ 0 ∷ 2 ∷ u8 (channel_id / 256) ∷ u8 channel_id ∷ []

package_lem :
    (cache : Buffer) (version message_type channel_id : ℕ)
    → let packed : Packed =
        package_message_common cache version message_type
          (Interface.channel_id_argument channel_id ∷ []) in
      (slice packed.bytes 0 packed.size
        ≡ (version ∷ u8 (message_type / 256) ∷ u8 message_type ∷ 0 ∷ 6 ∷ []) ++ body_of channel_id)
      × (packed.size ≡ 11)
unfolding value_content body_size encode_parameters encode_parameter encode_frame encode_head
package_lem cache version message_type channel_id =
    let wrote =
      package_message_common-encode_frame cache version message_type
        (Interface.channel_id_argument channel_id ∷ []) (omega arith) in
    (wrote.0, wrote.1)

-- The messages of the client are eleven bytes.
build_lem :
    (k : ChannelMessage) (version channel_id : ℕ) (cache : Buffer)
    → (slice (build k version channel_id cache).bytes 0 (build k version channel_id cache).size
        ≡ head_of k version ++ body_of channel_id)
      × ((build k version channel_id cache).size ≡ 11)
unfolding Interface.channel_setup Interface.channel_test Interface.channel_status
    Interface.channel_close
build_lem setup version channel_id cache = package_lem cache version 0x10 channel_id
build_lem test version channel_id cache = package_lem cache version 0x11 channel_id
build_lem status version channel_id cache = package_lem cache version 0x12 channel_id
build_lem close version channel_id cache = package_lem cache version 0x13 channel_id

-- What a waiting session has read when the message has come.
abbrev pub with_head : ChannelMessage → ℕ → Session → Session
with_head k version s = handle_read_header (arrived 0 (head_of k version) [] s) false

abbrev pub with_body : ChannelMessage → ℕ → ℕ → Session → Session
with_body k version channel_id s = arrived 5 (body_of channel_id) [] (with_head k version s)

with_head-pending :
    (k : ChannelMessage) (version : ℕ) (s : Session)
    → ((with_head k version s).pending ≡ read_body 6 ∷ [])
      × ((with_head k version s).socket_open ≡ s.socket_open)
      × ((with_head k version s).channel_id ≡ s.channel_id)
      × ((with_head k version s).input_buffer ≡ fill 0 (head_of k version) s.input_buffer)
unfolding handle_read_header parse_message_head take_head unpack_message_head fill store
    start_operation
with_head-pending k version s = (refl, refl, refl, refl)

pub with_body-Received :
    (k : ChannelMessage) (version channel_id : ℕ) (cache : Buffer) (s : Session)
    → Received (build k version channel_id cache) (with_body k version channel_id s).input_buffer
with_body-Received k version channel_id cache s =
    let (wrote, size) = build_lem k version channel_id cache in
    ap (slice (with_body k version channel_id s).input_buffer 0) size ∙ buffered ∙ sym wrote
  where
    buffered :
        slice (with_body k version channel_id s).input_buffer 0 11
        ≡ head_of k version ++ body_of channel_id
    buffered =
        unfold slice handle_read_header parse_message_head take_head unpack_message_head fill store
          start_operation in
        refl

module _ (answer : Library) (media : Media) (packet_fuel frame_fuel : ℕ) (block_id : Session → ℕ)
    (shared : Shared) where
  abbrev pub Traces : Session → List ℕ → List (List ℕ) → Session → Type 0
  Traces s received sent s' =
      Trace answer media packet_fuel frame_fuel block_id (s, shared) received sent (s', shared)

  -- A message comes and is handled.
  pub asked :
      (k : ChannelMessage) (version channel_id : ℕ) (cache : Buffer) (s s' s'' : Session)
      (sent : List (List ℕ))
      → IsByte version
      → s.pending ≡ read_head ∷ []
      → handle_read_body answer media packet_fuel frame_fuel
          (block_id (with_head k version s))
          (with_body k version channel_id s)
          shared
          false
        ≡ done (s', shared)
      → Traces s' [] sent s''
      → Traces s
          (slice (build k version channel_id cache).bytes 0 (build k version channel_id cache).size)
          sent
          s''
  asked k version channel_id cache s s' s'' sent version-IsByte waiting handled more =
      subst (λ xs. Traces s xs sent s'') (sym (build_lem k version channel_id cache).0)
        (reads_head s shared [] (head_of k version) (body_of channel_id) sent (s'', shared) waiting
          (version-IsByte, (omega arith, (omega arith, (omega arith, (omega arith, tt))))) refl
          (reads_body (with_head k version s) shared [] 6 (body_of channel_id) [] sent (s', shared)
            (s'', shared) (with_head-pending k version s).0
            (
              omega arith,
              (omega arith, (omega arith, (omega arith, (omega arith, (omega arith, tt))))),
            )
            refl handled more))

  -- An answer is sent, and the next head is waited for.
  answered :
      (message_type : ℕ) (ps : List Parameter) (s s' : Session)
      → s.pending ≡ []
      → Answers message_type ps s s'
      → Traces s' []
          (encode_frame Interface.protocol_version message_type ps ∷ [])
          (handle_write (record s' { pending = [] }) false)
  answered message_type ps s s' idle sent =
      subst (λ xs. Traces s' [] (xs ∷ []) (handle_write (record s' { pending = [] }) false))
        sent.frame
        (writes s' shared [] sent.size [] [] _
          (sent.pending ∙ ap (λ ops. ops ++ write sent.size ∷ []) idle) (stay _))

  abbrev pub Exchanged : Request → Session → Type 0
  Exchanged r s =
      (s' : Session) × Traces s (bytes_of r) (answers_to s.channel_id r) s'
      × IsWaiting s'
      × (s'.channel_id ≡ channel_after s.channel_id r)

  -- An answer is the end of an exchange.
  exchange_answered :
      (k : ChannelMessage) (version channel_id : ℕ) (cache : Buffer) (number : ℕ)
      (s asked_for s' : Session)
      → IsByte version
      → IsWaiting s
      → (asked_for.pending ≡ []) × (asked_for.socket_open ≡ s.socket_open)
      → handle_read_body answer media packet_fuel frame_fuel
          (block_id (with_head k version s))
          (with_body k version channel_id s)
          shared
          false
        ≡ done (s', shared)
      → Answers Interface.message_channel_status (channel_id_parameter number ∷ []) asked_for s'
      → (t : Session) × Traces s
          (bytes_of (request k version channel_id cache))
          (status_of number ∷ [])
          t
        × IsWaiting t
        × (t.channel_id ≡ s'.channel_id)
  unfolding handle_write start_operation
  exchange_answered k version channel_id cache number s asked_for s' version-IsByte waiting idle
        handled sent =
      (
        handle_write (record s' { pending = [] }) false,
        asked k version channel_id cache s s' _ _ version-IsByte waiting.0 handled
            (answered _ _ asked_for s' idle.0 sent),
        (refl, sent.still_open ∙ idle.1 ∙ waiting.1),
        refl,
      )

  pub exchange :
      (k : ChannelMessage) (version channel_id : ℕ) (cache : Buffer) (s : Session)
      → IsRequest (request k version channel_id cache)
      → Continues k
      → IsWaiting s
      → Exchanged (request k version channel_id cache) s
  unfolding handle_read_header parse_message_head take_head unpack_message_head fill store
      start_operation
  exchange setup version channel_id cache s (version-IsByte, id_fits) continues waiting =
      let (s', handled, number, sent) =
        channel_setup_answered answer media packet_fuel frame_fuel
          (block_id (with_head setup version s)) (with_body setup version channel_id s) shared
          version channel_id cache id_fits (with_body-Received setup version channel_id cache s) in
      let (t, trace, waiting', kept) =
        exchange_answered setup version channel_id cache channel_id s _ s' version-IsByte waiting
          (refl, refl) handled sent in
      (t, trace, waiting', kept ∙ number)
  exchange test version channel_id cache s (version-IsByte, id_fits) continues waiting =
      let (s', handled, sent) =
        channel_test_answered answer media packet_fuel frame_fuel
          (block_id (with_head test version s)) (with_body test version channel_id s) shared version
          channel_id cache id_fits (with_body-Received test version channel_id cache s) in
      let (t, trace, waiting', kept) =
        exchange_answered test version channel_id cache s.channel_id s _ s' version-IsByte waiting
          (refl, refl) handled sent in
      (t, trace, waiting', kept ∙ sent.same_channel)
  exchange status version channel_id cache s (version-IsByte, id_fits) continues waiting = (
    _,
    asked status version channel_id cache s _ _ [] version-IsByte waiting.0
        (channel_status_continues answer media packet_fuel frame_fuel
          (block_id (with_head status version s)) (with_body status version channel_id s) shared
          version channel_id cache id_fits (with_body-Received status version channel_id cache s))
        (stay _),
    (refl, waiting.1),
    refl,
  )
  exchange close version channel_id cache s valid continues waiting = elim continues [ ]
