-- ===== src/Session/Blocks.antt =====
-- The part of `process_pcm_data_send_request` from the check of the block's checksum on.
use audio_server.Common.{
  ℕ, ◌-◌, ◌/◌, ◌≤◌, ◌≡◌, refl, ap, true, false, some, none, List, [], ◌∷◌, length, arith,
  Bool-cases, Option-cases, inl, inr, le→ltb,
}
use audio_server.Common.Buffers.{Buffer, of_bytes}
use audio_server.Interface
use audio_server.Crc.{validate_crc}
use audio_server.Common.Int.{ℤ, is_set}
use audio_server.Ffmpeg.{
  Library, History, Outcome, done, undefined, init_converted_samples, convert_samples, sample_array,
}
use audio_server.Session.{Session, Shared, Media, send_error}
use audio_server.Session.Pcm.{process_block, store_samples}
use audio_server.Session.Sending.{
  Answers, send_data-Answers, channel_error-IsAnswer, channel_id_parameter, error_code_parameter,
}

-- What becomes of a block of samples: its checksum is wrong, there is no memory for the converted
-- samples, or they are converted.
pub data BlockOutcome (answer : Library) (media : Media) (pcm : List ℕ) (s : Session)
    (shared : Shared) : Outcome (Session × Shared) → Type 0 where
  wrong_checksum :
      (s' : Session)
      → validate_crc (of_bytes pcm) (length pcm) ≡ some false
      → Answers Interface.message_channel_error
          (channel_id_parameter s.channel_id
            ∷ error_code_parameter Interface.error_crc_invalid
            ∷ [])
          s
          s'
      → BlockOutcome answer media pcm s shared (done (s', shared))
  no_memory :
      (s' : Session)
      → validate_crc (of_bytes pcm) (length pcm) ≡ some true
      → is_set (init_converted_samples answer media.enc_ctx ((length pcm - 4) / 4) shared.history).0
        ≡ true
      → Answers Interface.message_channel_error
          (channel_id_parameter s.channel_id
            ∷ error_code_parameter Interface.error_unknown_error
            ∷ [])
          s
          s'
      → BlockOutcome answer media pcm s shared (
          done (
            s',
            record {
              history =
                  (init_converted_samples answer media.enc_ctx
                    ((length pcm - 4) / 4)
                    shared.history).1;
              pts = shared.pts;
            },
          ))
  bad_input :
      validate_crc (of_bytes pcm) (length pcm) ≡ some true
      → is_set (init_converted_samples answer media.enc_ctx ((length pcm - 4) / 4) shared.history).0
        ≡ false
      → BlockOutcome answer media pcm s shared undefined

validate_crc-none : (b : Buffer) (n : ℕ) → 4 ≤ n → validate_crc b n ≡ none → ⊥
unfolding validate_crc
validate_crc-none b n long e = let short = le→ltb n 4 long in ground (arith)

module _ (answer : Library) (media : Media) (packet_fuel frame_fuel block_id : ℕ) where
  no_memory_stored :
      (size : ℕ) (h : History)
      → is_set (init_converted_samples answer media.enc_ctx size h).0 ≡ true
      → store_samples answer media sample_array size h
        ≡ (done false, (init_converted_samples answer media.enc_ctx size h).1)
  unfolding store_samples
  no_memory_stored size h e = rw (e, store_samples) refl

  samples_stored :
      (size : ℕ) (h : History)
      → is_set (init_converted_samples answer media.enc_ctx size h).0 ≡ false
      → store_samples answer media sample_array size h
        ≡ (undefined, (init_converted_samples answer media.enc_ctx size h).1)
  unfolding store_samples convert_samples
  samples_stored size h e = rw (e, store_samples) refl

  -- A block of at least four bytes, whatever libav answers: if its checksum is wrong, it gets one
  -- answer, ERROR_CRC_INVALID, and libav is not called; if its checksum is right and
  -- `init_converted_samples` fails, it gets one answer, ERROR_UNKNOWN_ERROR, the time stamp is as
  -- it was, and no other function of libav is called; and in every other case the behaviour is
  -- undefined, since `convert_samples` is then given the samples in place of pointers to them. So
  -- no such block gets the response PCM_DATA_SEND_RESPONSE by a defined behaviour.
  pub process_block-BlockOutcome :
      (pcm : List ℕ) (s : Session) (shared : Shared)
      → 4 ≤ length pcm
      → BlockOutcome answer media pcm s shared
          (process_block answer media packet_fuel frame_fuel block_id pcm s shared)
  unfolding process_block send_error
  process_block-BlockOutcome pcm s shared long =
      elim (Option-cases (validate_crc (of_bytes pcm) (length pcm))) [
        | inl e ↦ absurd (validate_crc-none (of_bytes pcm) (length pcm) long e)
        | inr (false, e) ↦
            rw (e, process_block)
              (wrong_checksum _ e (
                send_data-Answers _ _ _ s
                  (channel_error-IsAnswer s.channel_id Interface.error_crc_invalid)))
        | inr (true, e) ↦ elim (Bool-cases (is_set initialised.0)) [
          | inl no_room ↦
              rw (e, process_block)
                (rw (no_memory_stored _ _ no_room, ap (λ r. r.1) (no_memory_stored _ _ no_room))
                  (no_memory _ e no_room (
                    send_data-Answers _ _ _ s
                      (channel_error-IsAnswer s.channel_id Interface.error_unknown_error))))
          | inr room ↦ rw (e, process_block) (rw (samples_stored _ _ room) (bad_input e room))
        ]
      ]
    where
      initialised : ℤ × History
      initialised =
          init_converted_samples answer media.enc_ctx ((length pcm - 4) / 4) shared.history
