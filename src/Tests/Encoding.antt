-- ===== src/Tests/Encoding.antt =====
-- A libav that keeps to its documentation: a FIFO that holds 3000 samples, and an encoder that has
-- one packet for every frame.
use audio_server.Common.{
  Bool, List, ℕ, ◌+◌, ◌-◌, ◌*◌, ◌≤◌, ◌<◌, ◌≡◌, refl, true, false, some, [], ◌∷◌, arith, ◌⊎◌, ltb,
  if◌then◌else◌,
}
use audio_server.Common.Int.{ℤ, pos, negsuc, to_ℕ, is_set}
use audio_server.Ffmpeg.{
  Call, History, Library, av_audio_fifo_size, av_audio_fifo_write, av_audio_fifo_read,
  avcodec_send_frame, avcodec_receive_packet, av_frame_alloc, calloc, success, Frame, made, failed,
  init_converted_samples, init_output_frame, convert_samples, add_samples_to_fifo,
  free_converted_samples, call, pointer_array, init_packet,
}
use audio_server.Ffmpeg.Ledger.{frame, pointers, sample_block, held, plus, plus_converted, DoneHeld}
use audio_server.Ffmpeg.Release.{held-init_converted_samples, held-init_output_frame}
use audio_server.Ffmpeg.Contract.{Contract, moves_samples, runs_encoder}
use audio_server.Session.{Session, Media, Outcome, done, undefined, new_session}
use audio_server.Session.Blocks.{BlockOutcome, process_block-BlockOutcome}
use audio_server.Session.Pcm.{
  encode_frames, encode_rounds, encode_frame, send_frame, write_packets, process_block,
  store_samples,
}
use audio_server.Session.Release.{block-DoneHeld}
use audio_server.Session.Encode.{frames_sent}
use audio_server.Session.Encode.Frames.{encode_frames_end}
use audio_server.Tests.Inputs.{stereo, fresh, unused}

abbrev queued_after : Call → ℤ → ℕ → ℕ
queued_after c r n = elim c as (λ _. ℕ) [
  | av_audio_fifo_read _ _ ↦ n - to_ℕ r
  | av_audio_fifo_write _ _ ↦ n + to_ℕ r
  | _ ↦ n
]

abbrev queued_in : History → ℕ
queued_in [] = 3000
queued_in ((c, r) ∷ h) = queued_after c r (queued_in h)

abbrev ready_after : Call → ℕ → ℕ
ready_after c n = elim c as (λ _. ℕ) [
  | avcodec_send_frame _ _ ↦ 1
  | avcodec_receive_packet ↦ 0
  | _ ↦ n
]

abbrev ready_in : History → ℕ
ready_in [] = 0
ready_in ((c, r) ∷ h) = ready_after c (ready_in h)

abbrev documented : Library
documented h c = elim c as (λ _. ℤ) [
  | av_audio_fifo_size _ ↦ pos (queued_in h)
  | av_audio_fifo_read _ n ↦ pos (if ltb (queued_in h) n then queued_in h else n)
  | avcodec_receive_packet ↦ (if ltb 0 (ready_in h) then pos 0 else negsuc 10)
  | av_audio_fifo_write _ n ↦ pos n
  | av_frame_alloc ↦ pos 1
  | calloc _ ↦ pos 1
  | _ ↦ pos 0
]

ready_in_few : (h : History) → ready_in h < 2
ready_in_few [] = omega arith
ready_in_few ((avcodec_send_frame _ _, r) ∷ h) = omega arith
ready_in_few ((avcodec_receive_packet, r) ∷ h) = omega arith
ready_in_few ((_, r) ∷ h) = ready_in_few h

queued_in_same :
    (h : History) (c : Call) (r : ℤ)
    → moves_samples c ≡ false
    → queued_in ((c, r) ∷ h) ≡ queued_in h
queued_in_same h (av_audio_fifo_read _ _) r e = absurd (cc)
queued_in_same h (av_audio_fifo_write _ _) r e = absurd (cc)
queued_in_same h _ r e = refl

ready_in_same :
    (h : History) (c : Call) (r : ℤ) → runs_encoder c ≡ false → ready_in ((c, r) ∷ h) ≡ ready_in h
ready_in_same h (avcodec_send_frame _ _) r e = absurd (cc)
ready_in_same h avcodec_receive_packet r e = absurd (cc)
ready_in_same h _ r e = refl

queued_in_read :
    (h : History) (n r : ℕ)
    → documented h (av_audio_fifo_read (pos 1) n) ≡ pos r
    → queued_in ((av_audio_fifo_read (pos 1) n, pos r) ∷ h) + r ≡ queued_in h
queued_in_read h n r e = ground arith

ready_in_receive :
    (h : History)
    → documented h avcodec_receive_packet ≡ pos 0
    → ready_in ((avcodec_receive_packet, pos 0) ∷ h) < ready_in h
ready_in_receive h e = ground arith

abbrev documented_contract : Contract documented (pos 1)
documented_contract = record {
  queued = queued_in;
  ready = ready_in;
  queued_size = λ h. refl;
  queued_read = queued_in_read;
  queued_same = queued_in_same;
  ready_receive = ready_in_receive;
  ready_same = ready_in_same;
}

-- What a session would be given if the server had a FIFO.
abbrev with_fifo : Media
with_fifo = record stereo { audio_fifo = pos 1 }

encode_frames_end_example :
    ((is_set with_fifo.audio_fifo ≡ false)
      × ((encode_frames documented with_fifo 2 3001 500 []).0 ≡ undefined))
    ⊎ ((is_set with_fifo.audio_fifo ≡ true)
        × ((frames : ℕ) × ((encode_frames documented with_fifo 2 3001 500 []).0
              ≡ done (500 + frames * 1152))
            × (frames * 1152 ≤ 3000)
            × (frames_sent (encode_frames documented with_fifo 2 3001 500 []).1
                ≡ frames_sent [] + frames)))
encode_frames_end_example =
    encode_frames_end documented with_fifo 2 documented_contract ready_in_few (omega arith) 3001 500
      [] (omega arith) (omega arith)

-- Two frames of the 3000 samples are encoded.
encode_frames_two : (encode_frames documented with_fifo 2 3001 500 []).0 ≡ done 2804
unfolding encode_frames encode_rounds encode_frame send_frame write_packets init_output_frame
    init_packet call
encode_frames_two = refl

held-init_converted_samples_example :
    (((init_converted_samples documented stereo.enc_ctx 100 []).0 ≡ success)
      × (held pointers (init_converted_samples documented stereo.enc_ctx 100 []).1
          ≡ some (plus_converted pointers 0))
      × (held pointers
            (free_converted_samples documented
              (init_converted_samples documented stereo.enc_ctx 100 []).1).1
          ≡ some 0))
    ⊎ ((is_set (init_converted_samples documented stereo.enc_ctx 100 []).0 ≡ true)
        × (held pointers (init_converted_samples documented stereo.enc_ctx 100 []).1 ≡ some 0))
unfolding held
held-init_converted_samples_example =
    held-init_converted_samples pointers documented stereo.enc_ctx 100 [] 0 refl

held-init_output_frame_example :
    ((f : Frame) × ((init_output_frame documented stereo.enc_ctx 1152 []).0 ≡ made f)
      × (held frame (init_output_frame documented stereo.enc_ctx 1152 []).1
          ≡ some (plus frame frame 0)))
    ⊎ ((error : ℤ) × ((init_output_frame documented stereo.enc_ctx 1152 []).0 ≡ failed error)
        × (held frame (init_output_frame documented stereo.enc_ctx 1152 []).1 ≡ some 0))
unfolding held
held-init_output_frame_example =
    held-init_output_frame frame documented stereo.enc_ctx 1152 [] 0 refl

-- One sample, and a checksum.
abbrev block : List ℕ
block = 1 ∷ 2 ∷ 3 ∷ 4 ∷ 0 ∷ 0 ∷ 0 ∷ 0 ∷ []

abbrev idle : Session
idle = record (new_session fresh) { channel_id = 4 }

process_block-BlockOutcome_example :
    BlockOutcome documented stereo block idle unused
      (process_block documented stereo 2 3002 9 block idle unused)
process_block-BlockOutcome_example =
    process_block-BlockOutcome documented stereo 2 3002 9 block idle unused (omega arith)

-- One sample is converted and stored; then two frames are encoded.
abbrev with_sample : Outcome Bool × History
with_sample = store_samples documented with_fifo pointer_array 1 []

with_sample_lem :
    (with_sample.0 ≡ done true)
    × (queued_in with_sample.1 ≡ 3001)
    × (held sample_block with_sample.1 ≡ some 0)
unfolding store_samples init_converted_samples convert_samples add_samples_to_fifo
    free_converted_samples call held
with_sample_lem = (refl, refl, refl)

block-DoneHeld_example :
    DoneHeld sample_block 0 (store_samples documented with_fifo pointer_array 1 [])
    × DoneHeld sample_block 0 (encode_frames documented with_fifo 2 3002 500 with_sample.1)
unfolding held
block-DoneHeld_example =
    block-DoneHeld sample_block documented with_fifo pointer_array 1 2 3002 500 0 [] with_sample.1
      refl with_sample_lem.2
