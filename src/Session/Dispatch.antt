-- ===== src/Session/Dispatch.antt =====
-- `handle_read_body` of Server.cpp, which parses a message and calls the function for its type.
use audio_server.Common.{ℕ, Bool, ◌==◌, if◌then◌else◌}
use audio_server.Message.{parse_message}
use audio_server.Interface
use audio_server.Ffmpeg.{Library}
use audio_server.Session.{
  Session, Shared, Media, Outcome, done, do_close, process_channel_setup, process_channel_test,
  process_channel_status, process_channel_close, process_channel_error, process_default,
}
use audio_server.Session.Pcm.{process_pcm_data_send_request}

module _ (answer : Library) (media : Media) (packet_fuel frame_fuel block_id : ℕ) where
  -- The `switch` over the message's type.
  unfoldable pub dispatch : Session → Shared → Outcome (Session × Shared)
  dispatch s shared =
      let message_type = s.info.message_type in
      if message_type == Interface.message_channel_setup
      then done (process_channel_setup s, shared)
      else (if message_type == Interface.message_channel_test
          then done (process_channel_test s, shared)
          else (if message_type == Interface.message_channel_status
              then done (process_channel_status s, shared)
              else (if message_type == Interface.message_channel_error
                  then done (process_channel_error s, shared)
                  else (if message_type == Interface.message_channel_close
                      then done (process_channel_close s, shared)
                      else (if message_type == Interface.message_pcm_data_send_request
                          then process_pcm_data_send_request answer media packet_fuel frame_fuel
                              block_id s shared
                          else done (process_default s, shared))))))

  unfoldable pub handle_read_body : Session → Shared → Bool → Outcome (Session × Shared)
  unfolding dispatch do_close
  handle_read_body s shared error =
      if error
      then done (do_close s, shared)
      else (let parsed = parse_message s.info s.input_buffer in
          let s' : Session = record s { info = parsed.0 } in
          if parsed.1 then dispatch s' shared else done (do_close s', shared))
