-- ===== src/Session/Switch.antt =====
-- The `switch` of `handle_read_body`, case by case.
use audio_server.Common.{ℕ, ◌<◌, ◌≡◌, ◌≢◌, ◌⊎◌, none, some, arith}
use audio_server.Interface
use audio_server.Ffmpeg.{Library}
use audio_server.Session.{
  Session, Shared, Media, Outcome, done, process_channel_setup, process_channel_test,
  process_channel_status, process_channel_close, process_channel_error, process_default, send_data,
}
use audio_server.Session.Pcm.{process_pcm_data_send_request}
use audio_server.Session.Dispatch.{dispatch}

pub process_channel_setup-some :
    (s : Session) (id : ℕ)
    → Interface.get_channel_id s.info ≡ some id
    → process_channel_setup s
      ≡ send_data
          (Interface.channel_status Interface.protocol_version id)
          (record s { channel_id = id })
unfolding process_channel_setup
process_channel_setup-some s id e = rw (e, process_channel_setup)

pub process_channel_setup-none :
    (s : Session) → Interface.get_channel_id s.info ≡ none → process_channel_setup s ≡ s
unfolding process_channel_setup
process_channel_setup-none s e = rw (e, process_channel_setup)

-- The cases of the `switch`, one for each message that the program knows, and the default.
module _ (answer : Library) (media : Media) (packet_fuel frame_fuel block_id : ℕ) (s : Session)
    (shared : Shared) where
  abbrev pub dispatched : Outcome (Session × Shared)
  dispatched = dispatch answer media packet_fuel frame_fuel block_id s shared

  pub dispatch_cases :
      (s.info.message_type ≡ 0x10 → dispatched ≡ done (process_channel_setup s, shared))
      × (s.info.message_type ≡ 0x11 → dispatched ≡ done (process_channel_test s, shared))
      × (s.info.message_type ≡ 0x12 → dispatched ≡ done (process_channel_status s, shared))
      × (s.info.message_type ≡ 0x14 → dispatched ≡ done (process_channel_error s, shared))
      × (s.info.message_type ≡ 0x13 → dispatched ≡ done (process_channel_close s, shared))
      × (s.info.message_type ≡ 0x20
          → dispatched
            ≡ process_pcm_data_send_request answer media packet_fuel frame_fuel block_id s shared)
  unfolding dispatch
  dispatch_cases = (
    λ e. ground arith,
    λ e. ground arith,
    λ e. ground arith,
    λ e. ground arith,
    λ e. ground arith,
    λ e. ground arith,
  )

  pub dispatch_default :
      (s.info.message_type < 0x10) ⊎ ((0x14 < s.info.message_type) × (s.info.message_type ≢ 0x20))
      → dispatched ≡ done (process_default s, shared)
  unfolding dispatch
  dispatch_default h = ground arith
