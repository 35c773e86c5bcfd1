-- ===== src/Session/Order.antt =====
-- The calls of the loops of `process_pcm_data_send_request` come after those that were made before.
use audio_server.Common.{
  ltb, ℕ, zero, suc, ◌+◌, Bool, true, false, Bool-cases, inl, inr, if◌then◌else◌,
}
use audio_server.Common.Int.{ℤ, is_negative, is_set, less_than, more_than}
use audio_server.Ffmpeg.{
  Input, Outcome, done, when_done, History, Library, M, ◌>>=◌, ◌>>◌, return, call, av_init_packet,
  av_audio_fifo_size, av_audio_fifo_read, avcodec_send_frame, avcodec_receive_packet,
  init_converted_samples, convert_samples, add_samples_to_fifo, free_converted_samples,
  init_output_frame, init_packet, Frame, FrameResult, failed, made,
}
use audio_server.Ffmpeg.Order.{
  Extends, more, when_done-Extends, init_converted_samples-Extends, init_output_frame-Extends,
  free_converted_samples-Extends, convert_samples-Extends, add_samples_to_fifo-Extends,
}
use audio_server.Session.{Media}
use audio_server.Session.Pcm.{
  int64_end, write_packets, send_frame, encode_frame, encode_rounds, encode_frames, store_samples,
}

module _ (answer : Library) (media : Media) (old : History) where
  pub store_samples-Extends :
      (input : Input) (size : ℕ) (h : History)
      → Extends old h
      → Extends old (store_samples answer media input size h).1
  unfolding store_samples
  store_samples-Extends input size h before =
      elim (Bool-cases (is_set (init_converted_samples answer media.enc_ctx size h).0)) [
        | inl e ↦ rw e made_room
        | inr e ↦ rw e (
            when_done-Extends old _
              (convert_samples answer input size media.resample_context
                (init_converted_samples answer media.enc_ctx size h).1)
              (convert_samples-Extends answer media.enc_ctx old input size media.resample_context _
                made_room)
              converted-Extends)
      ]
    where
      made_room : Extends old (init_converted_samples answer media.enc_ctx size h).1
      made_room = init_converted_samples-Extends answer media.enc_ctx old size h before

      freed : (h' : History) → Extends old h' → Extends old (free_converted_samples answer h').1
      freed h' before' = free_converted_samples-Extends answer media.enc_ctx old h' before'

      converted-Extends :
          (error : ℤ) (h' : History)
          → Extends old h'
          → Extends old
              ((if is_set error
                  then (do free_converted_samples answer; return (done false))
                  else (do
                    added ← add_samples_to_fifo answer media.audio_fifo size
                    when_done
                        (λ error. do
                          free_converted_samples answer
                          return (done (if is_set error then false else true)))
                        added))
                h').1
      converted-Extends error h' before' = elim (Bool-cases (is_set error)) [
        | inl e ↦ rw e (freed h' before')
        | inr e ↦ rw e (
            when_done-Extends old _ (add_samples_to_fifo answer media.audio_fifo size h')
              (add_samples_to_fifo-Extends answer media.enc_ctx old media.audio_fifo size h'
                before')
              (λ error' h'' before''. freed h'' before''))
      ]

  write_packets-Extends :
      (fuel : ℕ) (h : History) → Extends old h → Extends old (write_packets answer media fuel h).1
  unfolding write_packets init_packet call
  write_packets-Extends zero h before = before
  write_packets-Extends (suc fuel) h before =
      elim (Bool-cases
        (is_set (call answer avcodec_receive_packet (call answer av_init_packet h).1).0)) [
          | inl e ↦ rw e (more (more before))
          | inr e ↦ rw e (write_packets-Extends fuel _ (more (more (more (more (more before))))))
        ]

  send_frame-Extends :
      (fuel pts : ℕ) (f : Frame) (h : History)
      → Extends old h
      → Extends old (send_frame answer media fuel pts f h).1
  unfolding send_frame call
  send_frame-Extends fuel pts f h before = elim (Bool-cases (is_negative error.0)) [
    | inl e ↦ rw e (more (more before))
    | inr e ↦ rw e (elim (Bool-cases (is_set error.0)) [
      | inl e' ↦ rw e' (more (more before))
      | inr e' ↦ rw e' (
          when_done-Extends old _ (write_packets answer media fuel _)
            (write_packets-Extends fuel _ (more (more before))) (λ _ h' before'. before'))
    ])
  ]
    where
      error : ℤ × History
      error = call answer (avcodec_send_frame pts f.nb_samples) h

  encode_frame-Extends :
      (fuel pts : ℕ) (f : Frame) (h : History)
      → Extends old h
      → Extends old (encode_frame answer media fuel pts f h).1
  unfolding encode_frame call
  encode_frame-Extends fuel pts f h before =
      elim (Bool-cases (less_than samples.0 media.enc_ctx.frame_size)) [
        | inl e ↦ rw e (more (more before))
        | inr e ↦ rw e (elim (Bool-cases (ltb (pts + f.nb_samples) int64_end)) [
          | inl e' ↦ rw e' (send_frame-Extends fuel pts f samples.1 (more before))
          | inr e' ↦ rw e' (more before)
        ])
      ]
    where
      samples : ℤ × History
      samples = call answer (av_audio_fifo_read media.audio_fifo media.enc_ctx.frame_size) h

  frame-Extends :
      (pts : ℕ) (body : Frame → M (Outcome ℕ)) (r : FrameResult × History)
      → Extends old r.1
      → ((f : Frame) (h : History) → Extends old h → Extends old (body f h).1)
      → Extends old
          ((elim r.0 as (λ _. M (Outcome ℕ)) [ failed error ↦ return (done pts) | made f ↦ body f ])
            r.1).1
  frame-Extends pts body (failed error, h) before step = before
  frame-Extends pts body (made f, h) before step = step f h before

  again-Extends :
      (go_on : ℕ → M (Outcome ℕ)) (r : ℕ × Bool) (h : History)
      → (Extends old h → Extends old (go_on r.0 h).1)
      → Extends old h
      → Extends old
          ((elim r.1 as (λ _. M (Outcome ℕ)) [ true ↦ go_on r.0 | false ↦ return (done r.0) ]) h).1
  again-Extends go_on (pts, true) h ih before = ih before
  again-Extends go_on (pts, false) h ih before = before

  encode_rounds-Extends :
      (packet_fuel fuel pts : ℕ) (h : History)
      → Extends old h
      → Extends old (encode_rounds answer media packet_fuel fuel pts h).1
  unfolding encode_rounds call
  encode_rounds-Extends packet_fuel zero pts h before = before
  encode_rounds-Extends packet_fuel (suc fuel) pts h before =
      elim (Bool-cases (more_than size.0 media.enc_ctx.frame_size)) [
        | inr e ↦ rw e (more before)
        | inl e ↦ rw e (
            frame-Extends pts _
              (init_output_frame answer media.enc_ctx media.enc_ctx.frame_size size.1)
              (init_output_frame-Extends answer media.enc_ctx old media.enc_ctx.frame_size size.1
                (more before))
              (λ f h' started.
                when_done-Extends old _ (encode_frame answer media packet_fuel pts f h')
                  (encode_frame-Extends packet_fuel pts f h' started)
                  (λ r h''.
                    again-Extends (encode_rounds answer media packet_fuel fuel) r h''
                      (encode_rounds-Extends packet_fuel fuel r.0 h''))))
      ]
    where
      size : ℤ × History
      size = call answer (av_audio_fifo_size media.audio_fifo) h

  pub encode_frames-Extends :
      (packet_fuel fuel pts : ℕ) (h : History)
      → Extends old h
      → Extends old (encode_frames answer media packet_fuel fuel pts h).1
  unfolding encode_frames
  encode_frames-Extends packet_fuel fuel pts h before =
      elim (Bool-cases (is_set media.audio_fifo)) [
        | inl e ↦ rw e (encode_rounds-Extends packet_fuel fuel pts h before)
        | inr e ↦ rw e before
      ]
