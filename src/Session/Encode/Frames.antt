-- ===== src/Session/Encode/Frames.antt =====
-- The loop over whole frames of `process_pcm_data_send_request`, under the contract of libav.
use audio_server.Common.{
  ℕ, zero, suc, ◌+◌, ◌*◌, ◌≤◌, ◌<◌, ◌≡◌, refl, ap, ◌∙◌, Bool, true, false, ◌∷◌, arith, Bool-cases,
  ◌⊎◌, inl, inr,
}
use audio_server.Common.Int.{ℤ, is_negative, is_set, more_than}
use audio_server.Ffmpeg.{
  Outcome, done, undefined, out_of_fuel, when_done, History, Library, M, return, call,
  init_output_frame, Frame, FrameResult, failed, made, averror_exit, av_frame_alloc,
  av_frame_get_buffer, av_audio_fifo_size,
}
use audio_server.Ffmpeg.Contract.{Contract}
use audio_server.Session.{Media}
use audio_server.Session.Pcm.{int64_end, encode_frame, encode_rounds, encode_frames}
use audio_server.Session.Encode.{Encoded, frames_sent, encode_frame_ends}

done_injective : {A : Type 0} {x y : A} → done x ≡ done y → x ≡ y
done_injective {A} {x} e =
    ap (λ r. elim r as (λ _. A) [ done z ↦ z | undefined ↦ x | out_of_fuel ↦ x ]) e

module _ (answer : Library) (media : Media) (packet_fuel : ℕ)
    (contract : Contract answer media.audio_fifo) where
  -- The samples in the FIFO and the frames that were given to the encoder are as before.
  abbrev IsAsBefore : History → History → Type 0
  IsAsBefore old new =
      (contract.queued new ≡ contract.queued old) × (frames_sent new ≡ frames_sent old)

  abbrev FrameMade : ℕ → History → FrameResult × History → Type 0
  FrameMade size old r =
      IsAsBefore old r.1
      × (((error : ℤ) × (r.0 ≡ failed error))
          ⊎ ((frame : Frame) × (r.0 ≡ made frame) × (frame.nb_samples ≡ size)))

  frame_made :
      (old h : History) (size : ℕ)
      → IsAsBefore old h
      → FrameMade size old (init_output_frame answer media.enc_ctx size h)
  unfolding init_output_frame call
  frame_made old h size before = elim (Bool-cases (is_set (answer h av_frame_alloc))) [
    | inr e ↦ rw e ((same, before.1), inl (averror_exit, refl))
    | inl e ↦ rw e (elim (Bool-cases (is_negative (answer allocated av_frame_get_buffer))) [
      | inl e' ↦ rw e' (
        (
          contract.queued_same ((av_frame_get_buffer, _) ∷ allocated) _ _ refl
              ∙ contract.queued_same allocated _ _ refl
              ∙ same,
          before.1,
        ),
        inl (answer allocated av_frame_get_buffer, refl),
      )
      | inr e' ↦
          rw e' ((contract.queued_same allocated _ _ refl ∙ same, before.1), inr (_, refl, refl))
    ])
  ]
    where
      allocated : History
      allocated = (av_frame_alloc, answer h av_frame_alloc) ∷ h

      same : contract.queued allocated ≡ contract.queued old
      same = contract.queued_same h _ _ refl ∙ before.0

  -- The frames that were given to the encoder, of the samples that were queued before.
  abbrev Ended : ℕ → ℕ → ℕ → Outcome ℕ × History → Type 0
  Ended pts before sent r =
      (frames : ℕ) × (r.0 ≡ done (pts + frames * media.enc_ctx.frame_size))
      × (frames * media.enc_ctx.frame_size ≤ before)
      × (frames_sent r.1 ≡ sent + frames)

  none_encoded :
      (pts before sent : ℕ) (h : History)
      → frames_sent h ≡ sent
      → Ended pts before sent (done pts, h)
  none_encoded pts before sent h same = (0, ap done (omega arith), omega arith, omega (arith, same))

  after_frame :
      (pts before sent : ℕ) (go_on : ℕ → M (Outcome ℕ)) (r : Outcome (ℕ × Bool) × History)
      → ((pts' : ℕ) (h : History)
          → contract.queued h < before
          → pts' + contract.queued h ≤ pts + before
          → Ended pts' (contract.queued h) (frames_sent h) (go_on pts' h))
      → 0 < media.enc_ctx.frame_size
      → Encoded media.enc_ctx.frame_size pts before (contract.queued r.1) sent (frames_sent r.1) r.0
      → Ended pts before sent (
          when_done
            (λ x. elim x.1 as (λ _. M (Outcome ℕ)) [ true ↦ go_on x.0 | false ↦ return (done x.0) ])
            r.0
            r.1)
  after_frame pts before sent go_on (undefined, h) ih room (inl (e, same)) = absurd (cc)
  after_frame pts before sent go_on (out_of_fuel, h) ih room (inl (e, same)) = absurd (cc)
  after_frame pts before sent go_on (undefined, h) ih room (inr (more, e, less, same)) = absurd (cc)
  after_frame pts before sent go_on (out_of_fuel, h) ih room (inr (more, e, less, same)) =
      absurd (cc)
  after_frame pts before sent go_on (done x, h) ih room (inl (e, same)) =
      rw (done_injective e) (none_encoded pts before sent h same)
  after_frame pts before sent go_on (done x, h) ih room (inr (false, e, less, same)) =
      rw (done_injective e) (1, ap done (omega arith), omega (arith, less), omega (arith, same))
  after_frame pts before sent go_on (done x, h) ih room (inr (true, e, less, same)) =
      let (frames, ended, within, all) =
        ih (pts + media.enc_ctx.frame_size) h (omega (arith, less, room)) (omega (arith, less)) in
      rw (done_injective e, ended)
        (suc frames, ap done (omega arith), omega (arith, less, within), omega (arith, all, same))

  with_frame :
      (pts : ℕ) (h : History) (body : Frame → M (Outcome ℕ)) (r : FrameResult × History)
      → FrameMade media.enc_ctx.frame_size h r
      → ((frame : Frame)
          → frame.nb_samples ≡ media.enc_ctx.frame_size
          → IsAsBefore h r.1
          → Ended pts (contract.queued h) (frames_sent h) (body frame r.1))
      → Ended pts (contract.queued h) (frames_sent h) (
          (elim r.0 as (λ _. M (Outcome ℕ)) [ failed error ↦ return (done pts) | made f ↦ body f ])
            r.1)
  with_frame pts h body r (same, inl (error, e)) go_on = rw e (none_encoded pts _ _ r.1 same.1)
  with_frame pts h body r (same, inr (frame, e, whole)) go_on = rw e (go_on frame whole same)

  encode_rounds_end :
      ((h : History) → contract.ready h < packet_fuel)
      → 0 < media.enc_ctx.frame_size
      → (fuel pts : ℕ) (h : History) → contract.queued h < fuel
      → pts + contract.queued h < int64_end
      → Ended pts
          (contract.queued h)
          (frames_sent h)
          (encode_rounds answer media packet_fuel fuel pts h)
  unfolding encode_rounds call
  encode_rounds_end few room zero pts h enough fits = absurd (omega arith)
  encode_rounds_end few room (suc fuel) pts h enough fits =
      elim (Bool-cases (more_than size media.enc_ctx.frame_size)) [
        | inr e ↦ rw e (none_encoded pts (contract.queued h) (frames_sent h) measured refl)
        | inl e ↦ rw e (
            with_frame pts h _
              (init_output_frame answer media.enc_ctx media.enc_ctx.frame_size measured)
              (frame_made h measured media.enc_ctx.frame_size (same, refl))
              (encoded_round
                (λ pts' h' less.
                  encode_rounds_end few room fuel pts' h' (omega (arith, less, enough)))
                (init_output_frame answer media.enc_ctx media.enc_ctx.frame_size measured).1))
      ]
    where
      size : ℤ
      size = answer h (av_audio_fifo_size media.audio_fifo)

      measured : History
      measured = (av_audio_fifo_size media.audio_fifo, size) ∷ h

      same : contract.queued measured ≡ contract.queued h
      same = contract.queued_same h _ _ refl

      encoded_round :
          ((pts' : ℕ) (h' : History)
            → contract.queued h' < contract.queued h
            → pts' + contract.queued h' < int64_end
            → Ended pts'
                (contract.queued h')
                (frames_sent h')
                (encode_rounds answer media packet_fuel fuel pts' h'))
          → (made_history : History) (frame : Frame) → frame.nb_samples ≡ media.enc_ctx.frame_size
          → IsAsBefore h made_history
          → Ended pts (contract.queued h) (frames_sent h) (
              when_done
                (λ x. elim x.1 as (λ _. M (Outcome ℕ)) [
                  | true ↦ encode_rounds answer media packet_fuel fuel x.0
                  | false ↦ return (done x.0)
                ])
                (encode_frame answer media packet_fuel pts frame made_history).0
                (encode_frame answer media packet_fuel pts frame made_history).1)
      encoded_round ih made_history frame whole (queued, sent) =
          let (frames, ended, within, all) =
            after_frame pts (contract.queued made_history) (frames_sent made_history)
              (encode_rounds answer media packet_fuel fuel)
              (encode_frame answer media packet_fuel pts frame made_history)
              (λ pts' h' less smaller.
                ih pts' h' (omega (arith, less, queued)) (omega (arith, smaller, fits, queued)))
              room
              (encode_frame_ends answer media packet_fuel contract few pts made_history frame whole
                (omega (arith, fits, queued))) in
          (frames, ended, omega (arith, within, queued), omega (arith, all, sent))

  -- If the FIFO and the encoder do what libav documents, frames are not empty, the encoder never
  -- has as many packets ready as there is fuel for, and the time stamp and the samples in the FIFO
  -- together are below 2^63: on a null FIFO, as the server's is, the outcome is undefined. On every
  -- other one the loop ends within one round more than the FIFO holds samples; the frames that it
  -- has given to the encoder are as many as the calls of `avcodec_send_frame` that it has made; and
  -- the time stamp is moved on by the samples of all of them, which were in the FIFO.
  pub encode_frames_end :
      ((h : History) → contract.ready h < packet_fuel)
      → 0 < media.enc_ctx.frame_size
      → (fuel pts : ℕ) (h : History) → contract.queued h < fuel
      → pts + contract.queued h < int64_end
      → ((is_set media.audio_fifo ≡ false)
          × ((encode_frames answer media packet_fuel fuel pts h).0 ≡ undefined))
        ⊎ ((is_set media.audio_fifo ≡ true)
            × ((frames : ℕ) × ((encode_frames answer media packet_fuel fuel pts h).0
                  ≡ done (pts + frames * media.enc_ctx.frame_size))
                × (frames * media.enc_ctx.frame_size ≤ contract.queued h)
                × (frames_sent (encode_frames answer media packet_fuel fuel pts h).1
                    ≡ frames_sent h + frames)))
  unfolding encode_frames
  encode_frames_end few room fuel pts h enough fits = elim (Bool-cases (is_set media.audio_fifo)) [
    | inr null ↦ inl (null, rw null refl)
    | inl there ↦ inr (there, rw there (encode_rounds_end few room fuel pts h enough fits))
  ]
