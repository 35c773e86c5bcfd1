-- ===== src/Session/Encode.antt =====
-- One frame of `process_pcm_data_send_request`: its loop over packets, and its samples in the FIFO.
pub mod Frames
use audio_server.Common.{
  ℕ, zero, suc, ◌+◌, ◌-◌, ◌*◌, ◌≤◌, ◌<◌, ◌≡◌, refl, ap, ◌∙◌, sym, subst, Bool, true, false, Option,
  some, none, List, [], ◌∷◌, arith, Bool-cases, ◌⊎◌, inl, inr, ltb, ltb→ge, lt→ltb, if◌then◌else◌,
}
use audio_server.Common.Int.{ℤ, pos, negsuc, is_negative, is_set, less_than, more_than}
use audio_server.Ffmpeg.{
  Outcome, done, undefined, out_of_fuel, when_done, Call, History, Library, M, return, call,
  init_packet, init_output_frame, Frame, FrameResult, failed, made, CodecContext, averror_exit,
  av_init_packet, av_frame_alloc, av_frame_get_buffer, av_frame_free, av_audio_fifo_size,
  av_audio_fifo_realloc, av_audio_fifo_write, av_audio_fifo_read, avcodec_send_frame,
  avcodec_receive_packet, av_packet_rescale_ts, av_interleaved_write_frame, av_packet_unref,
}
use audio_server.Ffmpeg.Contract.{Contract, moves_samples, runs_encoder}
use audio_server.Session.{Media}
use audio_server.Session.Pcm.{int64_end, write_packets, send_frame, encode_frame}

not_set : (e : ℤ) → is_set e ≡ false → e ≡ pos 0
not_set (pos zero) h = refl
not_set (pos (suc n)) h = absurd (cc)
not_set (negsuc n) h = absurd (cc)

not_less : (e : ℤ) (n : ℕ) → less_than e n ≡ false → (r : ℕ) × (e ≡ pos r) × (n ≤ r)
not_less (pos k) n h = (k, refl, ltb→ge k n h)
not_less (negsuc k) n h = absurd (cc)

abbrev is_frame : Call → Bool
is_frame c = elim c as (λ _. Bool) [ avcodec_send_frame _ _ ↦ true | _ ↦ false ]

-- The frames that were given to the encoder.
abbrev pub frames_sent : History → ℕ
frames_sent [] = 0
frames_sent ((c, r) ∷ h) = if is_frame c then suc (frames_sent h) else frames_sent h

-- Either no frame was given to the encoder, and the time stamp was left alone; or one was, and the
-- time stamp was moved on by its samples, which are out of the FIFO.
abbrev pub Encoded : ℕ → ℕ → ℕ → ℕ → ℕ → ℕ → Outcome (ℕ × Bool) → Type 0
Encoded size pts before after sent sent_after result =
    ((result ≡ done (pts, false)) × (sent_after ≡ sent))
    ⊎ ((more : Bool) × (result ≡ done (pts + size, more))
        × (after + size ≤ before)
        × (sent_after ≡ suc sent))

module _ (answer : Library) (media : Media) (packet_fuel : ℕ)
    (contract : Contract answer media.audio_fifo) where
  write_packets_ends :
      (fuel : ℕ) (h : History)
      → contract.ready h < fuel
      → ((write_packets answer media fuel h).0 ≡ done tt)
        × (contract.queued (write_packets answer media fuel h).1 ≡ contract.queued h)
        × (frames_sent (write_packets answer media fuel h).1 ≡ frames_sent h)
  unfolding write_packets init_packet call
  write_packets_ends zero h few = absurd (omega arith)
  write_packets_ends (suc fuel) h few = elim (Bool-cases (is_set error)) [
    | inl e ↦ rw e (refl, received_queued, refl)
    | inr e ↦ rw e (
        let rest = write_packets_ends fuel written (fewer (not_set error e)) in
        (rest.0, rest.1 ∙ written_queued, rest.2))
  ]
    where
      prepared : History
      prepared = (av_init_packet, answer h av_init_packet) ∷ h

      error : ℤ
      error = answer prepared avcodec_receive_packet

      received : History
      received = (avcodec_receive_packet, error) ∷ prepared

      rescaled : History
      rescaled = (call answer av_packet_rescale_ts received).1

      sent : History
      sent = (call answer av_interleaved_write_frame rescaled).1

      written : History
      written = (call answer av_packet_unref sent).1

      received_queued : contract.queued received ≡ contract.queued h
      received_queued = contract.queued_same prepared _ _ refl ∙ contract.queued_same h _ _ refl

      written_queued : contract.queued written ≡ contract.queued h
      written_queued =
          contract.queued_same sent _ _ refl
          ∙ contract.queued_same rescaled _ _ refl
          ∙ contract.queued_same received _ _ refl
          ∙ received_queued

      fewer : error ≡ pos 0 → contract.ready written < fuel
      fewer e =
          let after : contract.ready written ≡ contract.ready received =
            contract.ready_same sent _ _ refl
            ∙ contract.ready_same rescaled _ _ refl
            ∙ contract.ready_same received _ _ refl in
          let taken : contract.ready received < contract.ready prepared =
            subst
              (λ r.
                contract.ready ((avcodec_receive_packet, r) ∷ prepared) < contract.ready prepared)
              (sym e) (contract.ready_receive prepared e) in
          omega (
            arith,
            few,
            after,
            taken,
            contract.ready_same h av_init_packet (answer h av_init_packet) refl,
          )

  send_frame_ends :
      ((h : History) → contract.ready h < packet_fuel)
      → (pts before : ℕ) (h : History) (frame : Frame) → frame.nb_samples ≡ media.enc_ctx.frame_size
      → contract.queued h + media.enc_ctx.frame_size ≤ before
      → Encoded media.enc_ctx.frame_size pts before
          (contract.queued (send_frame answer media packet_fuel pts frame h).1)
          (frames_sent h)
          (frames_sent (send_frame answer media packet_fuel pts frame h).1)
          (send_frame answer media packet_fuel pts frame h).0
  unfolding send_frame call
  send_frame_ends few pts before h frame size taken = elim (Bool-cases (is_negative error)) [
    | inl e ↦ rw e (inr (false, ap (λ n. done (pts + n, false)) size, left, refl))
    | inr e ↦ rw e (elim (Bool-cases (is_set error)) [
      | inl e' ↦ rw e' (inr (true, ap (λ n. done (pts + n, true)) size, left, refl))
      | inr e' ↦ rw e' (
          all_written (write_packets answer media packet_fuel freed)
            (write_packets_ends packet_fuel freed (few freed)))
    ])
  ]
    where
      error : ℤ
      error = answer h (avcodec_send_frame pts frame.nb_samples)

      sent : History
      sent = (avcodec_send_frame pts frame.nb_samples, error) ∷ h

      freed : History
      freed = (call answer av_frame_free sent).1

      same : contract.queued freed ≡ contract.queued h
      same = contract.queued_same sent _ _ refl ∙ contract.queued_same h _ _ refl

      left : contract.queued freed + media.enc_ctx.frame_size ≤ before
      left = omega (arith, same, taken)

      goes_on : Outcome (Unit {0}) → M (Outcome (ℕ × Bool))
      goes_on = when_done {B = ℕ × Bool} (λ _. return (done (pts + frame.nb_samples, true)))

      all_written :
          (w : Outcome (Unit {0}) × History)
          → (w.0 ≡ done tt)
            × (contract.queued w.1 ≡ contract.queued freed)
            × (frames_sent w.1 ≡ frames_sent freed)
          → Encoded media.enc_ctx.frame_size pts before
              (contract.queued (goes_on w.0 w.1).1)
              (frames_sent h)
              (frames_sent (goes_on w.0 w.1).1)
              (goes_on w.0 w.1).0
      all_written (undefined, h') (e, queued, frames) = absurd (cc)
      all_written (out_of_fuel, h') (e, queued, frames) = absurd (cc)
      all_written (done _, h') (e, queued, frames) =
          inr (true, ap (λ n. done (pts + n, true)) size, omega (arith, queued, left), frames)

  pub encode_frame_ends :
      ((h : History) → contract.ready h < packet_fuel)
      → (pts : ℕ) (h : History) (frame : Frame) → frame.nb_samples ≡ media.enc_ctx.frame_size
      → pts + contract.queued h < int64_end
      → Encoded media.enc_ctx.frame_size pts
          (contract.queued h)
          (contract.queued (encode_frame answer media packet_fuel pts frame h).1)
          (frames_sent h)
          (frames_sent (encode_frame answer media packet_fuel pts frame h).1)
          (encode_frame answer media packet_fuel pts frame h).0
  unfolding encode_frame call
  encode_frame_ends few pts h frame size fits =
      elim (Bool-cases (less_than samples media.enc_ctx.frame_size)) [
        | inl e ↦ rw e (inl (refl, refl))
        | inr e ↦
            rw (e, lt→ltb (pts + frame.nb_samples) int64_end (inside e))
              (send_frame_ends few pts (contract.queued h) read frame size (taken e))
      ]
    where
      samples : ℤ
      samples = answer h (av_audio_fifo_read media.audio_fifo media.enc_ctx.frame_size)

      read : History
      read = (av_audio_fifo_read media.audio_fifo media.enc_ctx.frame_size, samples) ∷ h

      taken :
          less_than samples media.enc_ctx.frame_size ≡ false
          → contract.queued read + media.enc_ctx.frame_size ≤ contract.queued h
      taken e =
          let (r, whole, enough) = not_less samples media.enc_ctx.frame_size e in
          let out : contract.queued read + r ≡ contract.queued h =
            subst
              (λ x.
                contract.queued
                    ((av_audio_fifo_read media.audio_fifo media.enc_ctx.frame_size, x) ∷ h)
                  + r
                ≡ contract.queued h)
              (sym whole) (contract.queued_read h media.enc_ctx.frame_size r whole) in
          omega (arith, out, enough)

      inside :
          less_than samples media.enc_ctx.frame_size ≡ false → pts + frame.nb_samples < int64_end
      inside e = omega (arith, taken e, size, fits)
