-- ===== src/Session/Pcm.antt =====
-- `process_pcm_data_send_request` of Server.cpp. The two loops take fuel.
use audio_server.Common.{
  ℕ, zero, suc, ◌+◌, ◌-◌, ◌/◌, Bool, true, false, none, some, List, length, ltb, if◌then◌else◌,
}
use audio_server.Common.Int.{is_negative, is_set, less_than, more_than}
use audio_server.Common.Buffers.{of_bytes}
use audio_server.Interface
use audio_server.Crc.{validate_crc}
use audio_server.Ffmpeg.{
  Input, sample_array, when_done, M, ◌>>=◌, ◌>>◌, return, Library, call, init_packet,
  init_converted_samples, convert_samples, add_samples_to_fifo, init_output_frame,
  free_converted_samples, failed, made, Frame, av_audio_fifo_size, av_audio_fifo_read,
  av_frame_free, avcodec_send_frame, avcodec_receive_packet, av_packet_rescale_ts,
  av_interleaved_write_frame, av_packet_unref,
}
use audio_server.Session.{
  Session, Shared, Media, Outcome, done, undefined, out_of_fuel, send_data, send_error,
}

-- `*pts_` is an `int64_t`.
abbrev pub int64_end : ℕ
int64_end = 9223372036854775808

-- The results of libav for the whole process, what the session was constructed with, and fuel.
module _ (answer : Library) (media : Media) where
  -- `while (!error)`: every packet that the encoder has is written.
  unfoldable pub write_packets : ℕ → M (Outcome (Unit {0}))
  write_packets zero = return out_of_fuel
  write_packets (suc fuel) = do
    packet ← init_packet answer
    error ← call answer avcodec_receive_packet
    elim (is_set error) [
      | true ↦ return (done tt)
      | false ↦ do
        call answer av_packet_rescale_ts
        call answer av_interleaved_write_frame
        call answer av_packet_unref
        write_packets fuel
    ]

  -- From `output_frame->pts = *pts_` on. `(pts, true)` goes on with the loop, and `(pts, false)` is
  -- a `break`.
  unfoldable pub send_frame : ℕ → ℕ → Frame → M (Outcome (ℕ × Bool))
  unfolding write_packets
  send_frame packet_fuel pts frame = do
    error ← call answer (avcodec_send_frame pts frame.nb_samples)
    call answer av_frame_free
    if is_negative error
        then return (done (pts + frame.nb_samples, false))
        else (if is_set error then return (done (pts + frame.nb_samples, true)) else (do
          written ← write_packets packet_fuel
          when_done (λ _. return (done (pts + frame.nb_samples, true))) written))

  -- A frame is read from the FIFO and encoded.
  unfoldable pub encode_frame : ℕ → ℕ → Frame → M (Outcome (ℕ × Bool))
  unfolding send_frame
  encode_frame packet_fuel pts frame = do
    samples ← call answer (av_audio_fifo_read media.audio_fifo media.enc_ctx.frame_size)
    if less_than samples media.enc_ctx.frame_size
        then (do call answer av_frame_free; return (done (pts, false)))
        else (if ltb (pts + frame.nb_samples) int64_end
            then send_frame packet_fuel pts frame
            else return undefined)

  -- The loop on a FIFO.
  unfoldable pub encode_rounds : ℕ → ℕ → ℕ → M (Outcome ℕ)
  unfolding encode_frame
  encode_rounds packet_fuel zero pts = return out_of_fuel
  encode_rounds packet_fuel (suc fuel) pts = do
    size ← call answer (av_audio_fifo_size media.audio_fifo)
    elim (more_than size media.enc_ctx.frame_size) [
      | false ↦ return (done pts)
      | true ↦ do
        frame ← init_output_frame answer media.enc_ctx media.enc_ctx.frame_size
        elim frame [
          | failed error ↦ return (done pts)
          | made f ↦ do
            encoded ← encode_frame packet_fuel pts f
            when_done
                (λ r. elim r.1 [
                  | true ↦ encode_rounds packet_fuel fuel r.0
                  | false ↦ return (done r.0)
                ])
                encoded
        ]
    ]

  -- `while (av_audio_fifo_size(audio_fifo_) > output_frame_size)`: whole frames are encoded. The
  -- result is `*pts_`. libav reads the FIFO through its pointer.
  unfoldable pub encode_frames : ℕ → ℕ → ℕ → M (Outcome ℕ)
  unfolding encode_rounds
  encode_frames packet_fuel fuel pts =
      if is_set media.audio_fifo then encode_rounds packet_fuel fuel pts else return undefined

  -- The samples are converted and stored in the FIFO; false is each of the three ways to the
  -- answer ERROR_UNKNOWN_ERROR.
  unfoldable pub store_samples : Input → ℕ → M (Outcome Bool)
  store_samples input nb_samples = do
    error ← init_converted_samples answer media.enc_ctx nb_samples
    if is_set error then return (done false) else (do
      converted ← convert_samples answer input nb_samples media.resample_context
      when_done
          (λ error.
            if is_set error then (do free_converted_samples answer; return (done false)) else (do
              added ← add_samples_to_fifo answer media.audio_fifo nb_samples
              when_done
                  (λ error. do
                    free_converted_samples answer
                    return (done (if is_set error then false else true)))
                  added))
          converted)

  -- From the check of the block's checksum on. The array `pcm_data` is cast to the type of an array
  -- of pointers. `block_id` is the variable of that name, to which
  -- nothing is assigned on this path.
  unfoldable pub process_block : ℕ → ℕ → ℕ → List ℕ → Session → Shared → Outcome (Session × Shared)
  unfolding store_samples encode_frames
  process_block packet_fuel frame_fuel block_id pcm_data s shared =
      elim (validate_crc (of_bytes pcm_data) (length pcm_data)) [
        | none ↦ undefined
        | some false ↦ done (send_error Interface.error_crc_invalid s, shared)
        | some true ↦
            let stored = store_samples sample_array ((length pcm_data - 4) / 4) shared.history in
            elim (stored.0) [
              | undefined ↦ undefined
              | out_of_fuel ↦ out_of_fuel
              | done false ↦ done (
                send_error Interface.error_unknown_error s,
                record { history = stored.1; pts = shared.pts },
              )
              | done true ↦
                  let encoded = encode_frames packet_fuel frame_fuel shared.pts stored.1 in
                  elim (encoded.0) [
                    | undefined ↦ undefined
                    | out_of_fuel ↦ out_of_fuel
                    | done pts ↦ done (
                      send_data
                          (Interface.pcm_data_send_response Interface.protocol_version s.channel_id
                            block_id)
                          s,
                      record { history = encoded.1; pts = pts },
                    )
                  ]
            ]
      ]

  unfoldable pub process_pcm_data_send_request :
      ℕ → ℕ → ℕ → Session → Shared → Outcome (Session × Shared)
  unfolding process_block
  process_pcm_data_send_request packet_fuel frame_fuel block_id s shared =
      elim (Interface.get_channel_id s.info) [
        | some id ↦ done (record s { channel_id = id }, shared)
        | none ↦ elim (Interface.get_block_id s.info) [
          | some _ ↦ done (s, shared)
          | none ↦ elim (Interface.get_crc s.info) [
            | some _ ↦ done (s, shared)
            | none ↦ elim (Interface.get_block_data s.info) [
              | none ↦ done (send_error Interface.error_no_payload s, shared)
              | some pcm_data ↦ process_block packet_fuel frame_fuel block_id pcm_data s shared
            ]
          ]
        ]
      ]
