-- ===== src/Session/Handled.antt =====
-- All that `handle_read_body` of Server.cpp can do, whatever message came, as a data type, and that
-- `process_pcm_data_send_request` does no more.
pub mod Dispatch
use audio_server.Common.{
  ℕ, ◌-◌, ◌/◌, ◌≡◌, Bool, true, false, some, List, Bool-cases, Option-cases, inl, inr, length, ◌==◌,
}
use audio_server.Common.Buffers.{Buffer, of_bytes}
use audio_server.Protocol.{Packed}
use audio_server.Protocol.Frame.{Parameter}
use audio_server.Message.{CommonMessage, parse_message}
use audio_server.Interface
use audio_server.Crc.{validate_crc}
use audio_server.Ffmpeg.{Library, History, sample_array}
use audio_server.Ffmpeg.Ledger.{Resource, held, DoneHeld}
use audio_server.Session.{
  Session, Shared, Media, Outcome, done, undefined, out_of_fuel, start_operation, read_head,
  do_close, send_data, send_error, process_channel_setup, process_channel_test,
  process_channel_status, process_channel_close, process_channel_error, process_default,
}
use audio_server.Session.Pcm.{
  store_samples, encode_frames, process_block, process_pcm_data_send_request,
}
use audio_server.Session.Dispatch.{dispatch, handle_read_body}
use audio_server.Ffmpeg.Order.{Extends, same}
use audio_server.Session.Order.{store_samples-Extends, encode_frames-Extends}
use audio_server.Session.Release.{encode_frames-DoneHeld}
use audio_server.Session.Release.Samples.{store_samples-DoneHeld}
use audio_server.Session.Sending.{
  IsAnswer, channel_status-IsAnswer, channel_error-IsAnswer, pcm_data_send_response-IsAnswer,
}

-- The calls from the one state to the other hold what they acquire no longer.
abbrev pub IsBalanced : Shared → Shared → Type 0
IsBalanced old new =
    (resource : Resource) (n : ℕ)
    → held resource old.history ≡ some n
    → held resource new.history ≡ some n

-- The session with another parsed message and another channel.
abbrev pub with_message : CommonMessage → ℕ → Session → Session
with_message info channel_id s = record s { info = info; channel_id = channel_id }

-- The session starts no operation, and may have closed its socket; it goes on to the next head; or
-- it sends one answer.
pub data Handled (s : Session) (shared : Shared) : Outcome (Session × Shared) → Type 0 where
  bad_read : Handled s shared undefined
  no_fuel : Handled s shared out_of_fuel
  stops :
      (info : CommonMessage) (channel_id : ℕ) (socket_open : Bool)
      → Handled s shared
          (done (record (with_message info channel_id s) { socket_open = socket_open }, shared))
  goes_on :
      (info : CommonMessage)
      → Handled s shared
          (done (start_operation read_head (with_message info s.channel_id s), shared))
  answers :
      (info : CommonMessage) (channel_id : ℕ) (new : Shared) (build : Buffer → Packed)
      (message_type : ℕ) (ps : List Parameter)
      → ((b : Buffer) → IsAnswer message_type ps (build b))
      → IsBalanced shared new
      → Extends shared.history new.history
      → Handled s shared (done (send_data build (with_message info channel_id s), new))

-- The session with the message that it has parsed.
abbrev pub parsed : CommonMessage → Session → Session
parsed info s = record s { info = info }

module _ (answer : Library) (media : Media) (packet_fuel frame_fuel block_id : ℕ) (s : Session)
    (shared : Shared) (info : CommonMessage) where
  pub error_sent :
      (code : ℕ) (new : Shared)
      → IsBalanced shared new
      → Extends shared.history new.history
      → Handled s shared (done (send_error code (parsed info s), new))
  unfolding send_error
  error_sent code new balanced extends =
      answers info s.channel_id new _ _ _ (channel_error-IsAnswer s.channel_id code) balanced
        extends

  encoded_block :
      (encoded : Outcome ℕ × History)
      → ((resource : Resource) (n : ℕ)
          → held resource shared.history ≡ some n
          → DoneHeld resource n encoded)
      → Extends shared.history encoded.1
      → Handled s shared (elim encoded.0 as (λ _. Outcome (Session × Shared)) [
        | undefined ↦ undefined
        | out_of_fuel ↦ out_of_fuel
        | done pts ↦ done (
          send_data
              (Interface.pcm_data_send_response Interface.protocol_version s.channel_id block_id)
              (parsed info s),
          record { history = encoded.1; pts = pts },
        )
      ])
  encoded_block (undefined, h) balanced extends = bad_read
  encoded_block (out_of_fuel, h) balanced extends = no_fuel
  encoded_block (done pts, h) balanced extends =
      answers info s.channel_id (record { history = h; pts = pts }) _ _ _
        (pcm_data_send_response-IsAnswer s.channel_id block_id) balanced extends

  stored_block :
      (stored : Outcome Bool × History)
      → ((resource : Resource) (n : ℕ)
          → held resource shared.history ≡ some n
          → DoneHeld resource n stored)
      → Extends shared.history stored.1
      → Handled s shared (elim stored.0 as (λ _. Outcome (Session × Shared)) [
        | undefined ↦ undefined
        | out_of_fuel ↦ out_of_fuel
        | done false ↦ done (
          send_error Interface.error_unknown_error (parsed info s),
          record { history = stored.1; pts = shared.pts },
        )
        | done true ↦
            let encoded = encode_frames answer media packet_fuel frame_fuel shared.pts stored.1 in
            elim (encoded.0) as (λ _. Outcome (Session × Shared)) [
              | undefined ↦ undefined
              | out_of_fuel ↦ out_of_fuel
              | done pts ↦ done (
                send_data
                    (Interface.pcm_data_send_response Interface.protocol_version s.channel_id
                      block_id)
                    (parsed info s),
                record { history = encoded.1; pts = pts },
              )
            ]
      ])
  stored_block (undefined, h) balanced extends = bad_read
  stored_block (out_of_fuel, h) balanced extends = no_fuel
  stored_block (done false, h) balanced extends =
      error_sent Interface.error_unknown_error (record { history = h; pts = shared.pts }) balanced
        extends
  stored_block (done true, h) balanced extends =
      encoded_block (encode_frames answer media packet_fuel frame_fuel shared.pts h)
        (λ resource n before.
          encode_frames-DoneHeld resource answer media packet_fuel frame_fuel shared.pts h n
            (balanced resource n before))
        (encode_frames-Extends answer media shared.history packet_fuel frame_fuel shared.pts h
          extends)

  process_block-Handled :
      (pcm : List ℕ)
      → Handled s shared
          (process_block answer media packet_fuel frame_fuel block_id pcm (parsed info s) shared)
  unfolding process_block
  process_block-Handled pcm = elim (Option-cases (validate_crc (of_bytes pcm) (length pcm))) [
    | inl e ↦ rw (e, process_block) bad_read
    | inr (false, e) ↦
        rw (e, process_block)
          (error_sent Interface.error_crc_invalid shared (λ resource n before. before) same)
    | inr (true, e) ↦
        rw (e, process_block)
          (stored_block stored stored_held (
            store_samples-Extends answer media shared.history sample_array ((length pcm - 4) / 4)
              shared.history same))
  ]
    where
      stored : Outcome Bool × History
      stored = store_samples answer media sample_array ((length pcm - 4) / 4) shared.history

      stored_held :
          (resource : Resource) (n : ℕ)
          → held resource shared.history ≡ some n
          → DoneHeld resource n stored
      stored_held resource n before =
          store_samples-DoneHeld resource answer media sample_array ((length pcm - 4) / 4)
            shared.history n before

  pub process_pcm-Handled : Handled s shared (
      process_pcm_data_send_request answer media packet_fuel frame_fuel block_id
        (parsed info s)
        shared)
  unfolding process_pcm_data_send_request
  process_pcm-Handled = elim (Option-cases (Interface.get_channel_id info)) [
    | inr (id, e) ↦ rw (e, process_pcm_data_send_request) (stops info id s.socket_open)
    | inl e ↦
        rw (e, process_pcm_data_send_request)
          (elim (Option-cases (Interface.get_block_id info)) [
            | inr (_, e') ↦ rw e' (stops info s.channel_id s.socket_open)
            | inl e' ↦ rw e' (elim (Option-cases (Interface.get_crc info)) [
              | inr (_, e'') ↦ rw e'' (stops info s.channel_id s.socket_open)
              | inl e'' ↦ rw e'' (elim (Option-cases (Interface.get_block_data info)) [
                | inl no_data ↦ rw no_data (
                    error_sent Interface.error_no_payload shared (λ resource n before. before) same)
                | inr (pcm, given) ↦ rw given (process_block-Handled pcm)
              ])
            ])
          ])
  ]
