-- ===== src/Session/Replies.antt =====
-- What the session does with each message, from the bytes in the input buffer on.
use audio_server.Common.{
  ℕ, ◌≤◌, ◌<◌, ◌≡◌, ◌≢◌, ◌⊎◌, inl, inr, refl, ap, ◌∙◌, Bool, true, false, [], ◌∷◌, ◌++◌, arith,
}
use audio_server.Common.Words.{IsByte}
use audio_server.Common.Buffers.{Buffer}
use audio_server.Message.{CommonMessage, parse_message}
use audio_server.Message.Parse.{IsFrame}
use audio_server.Message.Getters.{parse_message-IsFrame-eq}
use audio_server.Interface
use audio_server.Interface.Sent.{Received}
use audio_server.Interface.RoundTrip.{
  setup, test, status, close, channel_message_round_trip, channel_error_round_trip,
  pcm_data_send_request_round_trip,
}
use audio_server.Ffmpeg.{Library}
use audio_server.Session.{
  Session, Shared, Media, Outcome, done, do_close, process_channel_test, process_channel_status,
  process_channel_close, process_channel_error, process_default, send_data, read_head,
}
use audio_server.Session.Pcm.{process_pcm_data_send_request}
use audio_server.Session.Dispatch.{dispatch, handle_read_body}
use audio_server.Session.Sending.{
  Answers, send_data-Answers, channel_status-IsAnswer, channel_error-IsAnswer, channel_id_parameter,
  error_code_parameter,
}
use audio_server.Session.Switch.{process_channel_setup-some, dispatch_cases, dispatch_default}

module _ (answer : Library) (media : Media) (packet_fuel frame_fuel block_id : ℕ) (s : Session)
    (shared : Shared) where
  abbrev handle : Outcome (Session × Shared)
  handle = handle_read_body answer media packet_fuel frame_fuel block_id s shared false

  -- The session with the message in the input buffer parsed.
  abbrev heard : Session
  heard = record s { info = (parse_message s.info s.input_buffer).0 }

  heard-dispatch :
      (parse_message s.info s.input_buffer).1 ≡ true
      → handle ≡ dispatch answer media packet_fuel frame_fuel block_id heard shared
  unfolding handle_read_body
  heard-dispatch e = rw e

  -- A session that has read a setup of a channel below 65,536 keeps the channel's number, and
  -- answers with the channel's status under that number.
  pub channel_setup_answered :
      (version channel_id : ℕ) (output : Buffer)
      → channel_id < 65536
      → Received (Interface.channel_setup version channel_id output) s.input_buffer
      → (s' : Session) × (handle ≡ done (s', shared))
        × (s'.channel_id ≡ channel_id)
        × Answers Interface.message_channel_status
            (channel_id_parameter channel_id ∷ [])
            (record heard { channel_id = channel_id })
            s'
  unfolding send_data
  channel_setup_answered version channel_id output fits received =
      let got =
        channel_message_round_trip version channel_id output s.input_buffer s.info fits setup
          received in
      (
        send_data (Interface.channel_status Interface.protocol_version channel_id)
            (record heard { channel_id = channel_id }),
        heard-dispatch got.0.0
            ∙ (dispatch_cases answer media packet_fuel frame_fuel block_id heard shared).0 got.0.1
            ∙ ap (λ x. done (x, shared)) (process_channel_setup-some heard channel_id got.1),
        refl,
        send_data-Answers _ _ _ _ (channel_status-IsAnswer channel_id),
      )

  -- A test of a channel below 65,536 is answered with the status of the channel that was set up
  -- last, whatever number the test itself carries.
  pub channel_test_answered :
      (version channel_id : ℕ) (output : Buffer)
      → channel_id < 65536
      → Received (Interface.channel_test version channel_id output) s.input_buffer
      → (s' : Session) × (handle ≡ done (s', shared))
        × Answers Interface.message_channel_status (channel_id_parameter s.channel_id ∷ []) heard s'
  unfolding process_channel_test
  channel_test_answered version channel_id output fits received =
      let a =
        channel_message_round_trip version channel_id output s.input_buffer s.info fits test
          received in
      (
        process_channel_test heard,
        heard-dispatch a.0.0
            ∙ (dispatch_cases answer media packet_fuel frame_fuel block_id heard shared).1 a.0.1,
        send_data-Answers _ _ _ _ (channel_status-IsAnswer s.channel_id),
      )

  -- A status of a channel below 65,536 is not answered: the session starts to read the next head,
  -- and beside the parsed message nothing else changes.
  pub channel_status_continues :
      (version channel_id : ℕ) (output : Buffer)
      → channel_id < 65536
      → Received (Interface.channel_status version channel_id output) s.input_buffer
      → handle ≡ done (record heard { pending = s.pending ++ read_head ∷ [] }, shared)
  unfolding process_channel_status
  channel_status_continues version channel_id output fits received =
      let a =
        channel_message_round_trip version channel_id output s.input_buffer s.info fits status
          received in
      heard-dispatch a.0.0
      ∙ (dispatch_cases answer media packet_fuel frame_fuel block_id heard shared).2 a.0.1

  -- Each of these ends the session: the client closes the channel or reports an error, with
  -- numbers below 65,536, or the parser refuses the bytes. The socket is closed and no operation is
  -- started.
  pub session_ends :
      (version channel_id error_code : ℕ) (output : Buffer)
      → channel_id < 65536
      → error_code < 65536
      → Received (Interface.channel_close version channel_id output) s.input_buffer
        ⊎ (Received (Interface.channel_error version channel_id error_code output) s.input_buffer
            ⊎ ((parse_message s.info s.input_buffer).1 ≡ false))
      → handle ≡ done (record heard { socket_open = false }, shared)
  unfolding process_channel_close process_channel_error
  session_ends version channel_id error_code output fits code_fits (inl received) =
      let a =
        channel_message_round_trip version channel_id output s.input_buffer s.info fits close
          received in
      heard-dispatch a.0.0
      ∙ (dispatch_cases answer media packet_fuel frame_fuel block_id heard shared).4 a.0.1
  session_ends version channel_id error_code output fits code_fits (inr (inl received)) =
      let a =
        channel_error_round_trip version channel_id output s.input_buffer s.info fits error_code
          code_fits received in
      heard-dispatch a.0.0
      ∙ (dispatch_cases answer media packet_fuel frame_fuel block_id heard shared).3 a.0.1
  session_ends version channel_id error_code output fits code_fits (inr (inr refused)) =
      no_message refused
    where
      no_message :
          (parse_message s.info s.input_buffer).1 ≡ false
          → handle ≡ done (record heard { socket_open = false }, shared)
      no_message e = unfold handle_read_body do_close in rw e

  -- A frame of any type but the six that the server handles, 0x10 to 0x14 and 0x20, is answered
  -- with the error 5, under the number of the channel that was set up last.
  pub unknown_type_answered :
      (f : IsFrame s.input_buffer)
      → (f.message_type < 0x10) ⊎ ((0x14 < f.message_type) × (f.message_type ≢ 0x20))
      → (s' : Session) × (handle ≡ done (s', shared))
        × Answers Interface.message_channel_error
            (channel_id_parameter s.channel_id
              ∷ error_code_parameter Interface.error_unknown_message_type
              ∷ [])
            heard
            s'
  unfolding process_default
  unknown_type_answered f h =
      let parses = parse_message-IsFrame-eq s.info s.input_buffer f in
      let accepted = ap (λ (r : CommonMessage × Bool). r.1) parses in
      let type = ap (λ (r : CommonMessage × Bool). r.0.message_type) parses in
      (
        process_default heard,
        heard-dispatch accepted
            ∙ dispatch_default answer media packet_fuel frame_fuel block_id heard shared
                (ground (arith, type)),
        send_data-Answers _ _ _ _
            (channel_error-IsAnswer s.channel_id Interface.error_unknown_message_type),
      )

  -- A block of at most 8192 bytes of samples that the protocol's own function builds, with numbers
  -- that fit their types, is neither encoded nor answered:
  -- the session keeps the channel's number, makes no call of the encoder and starts no
  -- operation, so that it ends. The test of `get_channel_id` is inverted.
  pub pcm_data_send_request_dropped :
      (version channel_id block crc data_length : ℕ) (block_data output : Buffer)
      → channel_id < 65536
      → block < 4294967296
      → crc < 4294967296
      → data_length ≤ 8192
      → ((j : ℕ) → IsByte (block_data j))
      → Received
          (Interface.pcm_data_send_request version channel_id block block_data data_length crc
            output)
          s.input_buffer
      → handle ≡ done (record heard { channel_id = channel_id }, shared)
  unfolding process_pcm_data_send_request
  pcm_data_send_request_dropped version channel_id block crc n block_data output fits block_fits
        crc_fits n_fits bytes received =
      let a =
        pcm_data_send_request_round_trip version channel_id output s.input_buffer s.info fits block
          crc n block_data block_fits crc_fits n_fits bytes received in
      heard-dispatch a.0.0
      ∙ (dispatch_cases answer media packet_fuel frame_fuel block_id heard shared).5 a.0.1
      ∙ rw (a.1, process_pcm_data_send_request)
