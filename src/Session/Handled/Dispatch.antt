-- ===== src/Session/Handled/Dispatch.antt =====
-- The switch of `handle_read_body` of Server.cpp, and the handlers of the other messages.
use audio_server.Common.{ℕ, Bool, true, false, Bool-cases, Option-cases, inl, inr, ◌==◌}
use audio_server.Message.{CommonMessage, parse_message}
use audio_server.Interface
use audio_server.Ffmpeg.{Library}
use audio_server.Session.{
  Session, Shared, Media, done, do_close, process_channel_setup, process_channel_test,
  process_channel_status, process_channel_close, process_channel_error, process_default,
}
use audio_server.Session.Dispatch.{dispatch, handle_read_body}
use audio_server.Ffmpeg.Order.{same}
use audio_server.Session.Sending.{channel_status-IsAnswer}
use audio_server.Session.Handled.{
  Handled, stops, goes_on, answers, parsed, error_sent, process_pcm-Handled,
}

module _ (answer : Library) (media : Media) (packet_fuel frame_fuel block_id : ℕ) (s : Session)
    (shared : Shared) (info : CommonMessage) where
  process_channel_setup-Handled :
      Handled s shared (done (process_channel_setup (parsed info s), shared))
  unfolding process_channel_setup
  process_channel_setup-Handled = elim (Option-cases (Interface.get_channel_id info)) [
    | inl e ↦ rw (e, process_channel_setup) (stops info s.channel_id s.socket_open)
    | inr (id, e) ↦
        rw (e, process_channel_setup)
          (answers info id shared _ _ _ (channel_status-IsAnswer id) (λ resource n before. before)
            same)
  ]

  process_channel_test-Handled :
      Handled s shared (done (process_channel_test (parsed info s), shared))
  unfolding process_channel_test
  process_channel_test-Handled =
      answers info s.channel_id shared _ _ _ (channel_status-IsAnswer s.channel_id)
        (λ resource n before. before) same

  dispatch-Handled :
      Handled s shared
        (dispatch answer media packet_fuel frame_fuel block_id (parsed info s) shared)
  unfolding dispatch process_channel_status process_channel_error process_channel_close do_close
      process_default
  dispatch-Handled = elim (Bool-cases (info.message_type == Interface.message_channel_setup)) [
    | inl e ↦ rw (e, dispatch) process_channel_setup-Handled
    | inr e ↦
        rw (e, dispatch)
          (elim (Bool-cases (info.message_type == Interface.message_channel_test)) [
            | inl e ↦ rw e process_channel_test-Handled
            | inr e ↦
                rw e (elim (Bool-cases (info.message_type == Interface.message_channel_status)) [
                  | inl e ↦ rw e (goes_on info)
                  | inr e ↦
                      rw e
                        (elim (Bool-cases (info.message_type == Interface.message_channel_error)) [
                          | inl e ↦ rw e (stops info s.channel_id false)
                          | inr e ↦
                              rw e
                                (elim (Bool-cases
                                  (info.message_type == Interface.message_channel_close)) [
                                    | inl e ↦ rw e (stops info s.channel_id false)
                                    | inr e ↦
                                        rw e
                                          (elim (Bool-cases (
                                            info.message_type
                                            == Interface.message_pcm_data_send_request)) [
                                              | inl e ↦ rw e (
                                                  process_pcm-Handled answer media packet_fuel
                                                    frame_fuel block_id s shared info)
                                              | inr e ↦ rw e (
                                                  error_sent answer media packet_fuel frame_fuel
                                                    block_id s shared info
                                                    Interface.error_unknown_message_type shared
                                                    (λ resource n before. before) same)
                                            ])
                                  ])
                        ])
                ])
          ])
  ]

-- Whatever a message holds, and whatever libav answers.
pub handle_read_body-Handled :
    (answer : Library) (media : Media) (packet_fuel frame_fuel block_id : ℕ) (s : Session)
    (shared : Shared) (error : Bool)
    → Handled s shared
        (handle_read_body answer media packet_fuel frame_fuel block_id s shared error)
unfolding handle_read_body do_close
handle_read_body-Handled answer media packet_fuel frame_fuel block_id s shared true =
    stops s.info s.channel_id false
handle_read_body-Handled answer media packet_fuel frame_fuel block_id s shared false =
    let r = parse_message s.info s.input_buffer in
    elim (Bool-cases r.1) [
      | inl e ↦ rw e (dispatch-Handled answer media packet_fuel frame_fuel block_id s shared r.0)
      | inr e ↦ rw e (stops r.0 s.channel_id false)
    ]
