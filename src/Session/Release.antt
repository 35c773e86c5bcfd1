-- ===== src/Session/Release.antt =====
-- The resources of Ffmpeg/Ledger over the loops of `process_pcm_data_send_request`.
pub mod Samples
use audio_server.Common.{
  ltb, ℕ, zero, suc, ◌+◌, ◌≡◌, refl, Bool, true, false, some, ◌∷◌, Bool-cases, ◌⊎◌, inl, inr,
  if◌then◌else◌,
}
use audio_server.Common.Int.{ℤ, is_negative, is_set, less_than, more_than}
use audio_server.Ffmpeg.{
  Input, Outcome, done, when_done, History, Library, M, ◌>>=◌, ◌>>◌, return, call, av_init_packet,
  av_frame_free, av_audio_fifo_size, av_audio_fifo_read, avcodec_send_frame, avcodec_receive_packet,
  av_packet_rescale_ts, av_interleaved_write_frame, av_packet_unref, init_converted_samples,
  convert_samples, add_samples_to_fifo, free_converted_samples, init_output_frame, init_packet,
  Frame, FrameResult, failed, made,
}
use audio_server.Ffmpeg.Ledger.{
  Resource, frame, held, plus, plus_converted, DoneHeld, when_done-DoneHeld, unchanged_held,
  acquired_held, released_held, packet,
}
use audio_server.Ffmpeg.Release.{
  held-init_converted_samples, held-init_output_frame, held-free_converted_samples,
  convert_samples-DoneHeld, add_samples_to_fifo-DoneHeld,
}
use audio_server.Session.{Media}
use audio_server.Session.Pcm.{
  int64_end, write_packets, send_frame, encode_frame, encode_rounds, encode_frames, store_samples,
}
use audio_server.Session.Release.Samples.{store_samples-DoneHeld}

module _ (resource : Resource) (answer : Library) (media : Media) where
  write_packets-DoneHeld :
      (fuel : ℕ) (h : History) (n : ℕ)
      → held resource h ≡ some n
      → DoneHeld resource n (write_packets answer media fuel h)
  unfolding write_packets init_packet call
  write_packets-DoneHeld zero h n before = tt
  write_packets-DoneHeld (suc fuel) h n before = elim (Bool-cases (is_set error)) [
    | inl e ↦
        rw e (
          unchanged_held resource avcodec_receive_packet error prepared n (rw e refl) prepared_held)
    | inr e ↦ rw e (
        write_packets-DoneHeld fuel _ n (
          released_held resource av_packet_unref _ _ n packet refl (
            unchanged_held resource av_interleaved_write_frame _ _ _ refl (
              unchanged_held resource av_packet_rescale_ts _ _ _ refl (
                acquired_held resource avcodec_receive_packet error prepared n packet (rw e refl)
                  prepared_held)))))
  ]
    where
      prepared : History
      prepared = (av_init_packet, answer h av_init_packet) ∷ h

      error : ℤ
      error = answer prepared avcodec_receive_packet

      prepared_held : held resource prepared ≡ some n
      prepared_held =
          unchanged_held resource av_init_packet (answer h av_init_packet) h n refl before

  send_frame-releases :
      (fuel pts : ℕ) (f : Frame) (h : History) (n : ℕ)
      → held resource h ≡ some (plus frame resource n)
      → DoneHeld resource n (send_frame answer media fuel pts f h)
  unfolding send_frame call
  send_frame-releases fuel pts f h n before = elim (Bool-cases (is_negative error)) [
    | inl e ↦ rw e freed_held
    | inr e ↦ rw e (elim (Bool-cases (is_set error)) [
      | inl e' ↦ rw e' freed_held
      | inr e' ↦ rw e' (
          when_done-DoneHeld resource n n _ (write_packets answer media fuel freed_frame)
            (write_packets-DoneHeld fuel freed_frame n freed_held) (λ _ h' before'. before'))
    ])
  ]
    where
      error : ℤ
      error = answer h (avcodec_send_frame pts f.nb_samples)

      sent : History
      sent = (avcodec_send_frame pts f.nb_samples, error) ∷ h

      freed_frame : History
      freed_frame = (call answer av_frame_free sent).1

      freed_held : held resource freed_frame ≡ some n
      freed_held =
          released_held resource av_frame_free (answer sent av_frame_free) sent n frame refl (
            unchanged_held resource (avcodec_send_frame pts f.nb_samples) error h
              (plus frame resource n) refl before)

  encode_frame-releases :
      (fuel pts : ℕ) (f : Frame) (h : History) (n : ℕ)
      → held resource h ≡ some (plus frame resource n)
      → DoneHeld resource n (encode_frame answer media fuel pts f h)
  unfolding encode_frame call
  encode_frame-releases fuel pts f h n before =
      elim (Bool-cases (less_than samples media.enc_ctx.frame_size)) [
        | inl e ↦ rw e (
            released_held resource av_frame_free (answer read av_frame_free) read n frame refl
              read_held)
        | inr e ↦ rw e (elim (Bool-cases (ltb (pts + f.nb_samples) int64_end)) [
          | inl e' ↦ rw e' (send_frame-releases fuel pts f read n read_held)
          | inr e' ↦ rw e' tt
        ])
      ]
    where
      samples : ℤ
      samples = answer h (av_audio_fifo_read media.audio_fifo media.enc_ctx.frame_size)

      read : History
      read = (av_audio_fifo_read media.audio_fifo media.enc_ctx.frame_size, samples) ∷ h

      read_held : held resource read ≡ some (plus frame resource n)
      read_held =
          unchanged_held resource (av_audio_fifo_read media.audio_fifo media.enc_ctx.frame_size)
            samples h (plus frame resource n) refl before

  again_held :
      (go_on : ℕ → M (Outcome ℕ)) (r : ℕ × Bool) (h : History) (n : ℕ)
      → (held resource h ≡ some n → DoneHeld resource n (go_on r.0 h))
      → held resource h ≡ some n
      → DoneHeld resource n
          ((elim r.1 as (λ _. M (Outcome ℕ)) [ true ↦ go_on r.0 | false ↦ return (done r.0) ]) h)
  again_held go_on (pts, true) h n ih before = ih before
  again_held go_on (pts, false) h n ih before = before

  frame_held :
      (pts n : ℕ) (body : Frame → M (Outcome ℕ)) (r : FrameResult × History)
      → ((f : Frame) × (r.0 ≡ made f) × (held resource r.1 ≡ some (plus frame resource n)))
        ⊎ ((error : ℤ) × (r.0 ≡ failed error) × (held resource r.1 ≡ some n))
      → ((f : Frame) (h : History)
          → held resource h ≡ some (plus frame resource n)
          → DoneHeld resource n (body f h))
      → DoneHeld resource n (
          (elim r.0 as (λ _. M (Outcome ℕ)) [ failed error ↦ return (done pts) | made f ↦ body f ])
            r.1)
  frame_held pts n body r (inl (f, e, more)) release = rw e (release f r.1 more)
  frame_held pts n body r (inr (error, e, same)) release = rw e same

  encode_rounds-DoneHeld :
      (packet_fuel fuel pts : ℕ) (h : History) (n : ℕ)
      → held resource h ≡ some n
      → DoneHeld resource n (encode_rounds answer media packet_fuel fuel pts h)
  unfolding encode_rounds call
  encode_rounds-DoneHeld packet_fuel zero pts h n before = tt
  encode_rounds-DoneHeld packet_fuel (suc fuel) pts h n before =
      elim (Bool-cases (more_than size media.enc_ctx.frame_size)) [
        | inr e ↦ rw e measured_held
        | inl e ↦ rw e (
            frame_held pts n _
              (init_output_frame answer media.enc_ctx media.enc_ctx.frame_size measured)
              (held-init_output_frame resource answer media.enc_ctx media.enc_ctx.frame_size
                measured n measured_held)
              (λ f h' more.
                when_done-DoneHeld resource n n _ (encode_frame answer media packet_fuel pts f h')
                  (encode_frame-releases packet_fuel pts f h' n more)
                  (λ r h''.
                    again_held (encode_rounds answer media packet_fuel fuel) r h'' n
                      (encode_rounds-DoneHeld packet_fuel fuel r.0 h'' n))))
      ]
    where
      size : ℤ
      size = answer h (av_audio_fifo_size media.audio_fifo)

      measured : History
      measured = (av_audio_fifo_size media.audio_fifo, size) ∷ h

      measured_held : held resource measured ≡ some n
      measured_held =
          unchanged_held resource (av_audio_fifo_size media.audio_fifo) size h n refl before

  -- When the loop ends, nothing more is held than before.
  pub encode_frames-DoneHeld :
      (packet_fuel fuel pts : ℕ) (h : History) (n : ℕ)
      → held resource h ≡ some n
      → DoneHeld resource n (encode_frames answer media packet_fuel fuel pts h)
  unfolding encode_frames
  encode_frames-DoneHeld packet_fuel fuel pts h n before =
      elim (Bool-cases (is_set media.audio_fifo)) [
        | inl e ↦ rw e (encode_rounds-DoneHeld packet_fuel fuel pts h n before)
        | inr e ↦ rw e tt
      ]

  -- Whatever libav answers, whatever the session was given, and whether the samples come as
  -- pointers or as an array: when the part of `process_pcm_data_send_request` that stores samples
  -- in the FIFO comes to its end, be it by an error, as many frames, packets with data, arrays of
  -- pointers and blocks of converted samples are held, and as many of the other resources that are
  -- counted, as before it; and so it is with the part that encodes frames. Nothing is released that
  -- was not held.
  pub block-DoneHeld :
      (input : Input) (size packet_fuel frame_fuel pts n : ℕ) (before stored : History)
      → held resource before ≡ some n
      → held resource stored ≡ some n
      → DoneHeld resource n (store_samples answer media input size before)
        × DoneHeld resource n (encode_frames answer media packet_fuel frame_fuel pts stored)
  block-DoneHeld input size packet_fuel frame_fuel pts n before stored first second = (
    store_samples-DoneHeld resource answer media input size before n first,
    encode_frames-DoneHeld packet_fuel frame_fuel pts stored n second,
  )
