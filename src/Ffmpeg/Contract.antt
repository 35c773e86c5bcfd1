-- ===== src/Ffmpeg/Contract.antt =====
-- What the documentation of libav says of a FIFO and of the encoder, for the library that the model
-- is given: the contract that the loops of Server.cpp rely on.
use audio_server.Common.{ℕ, ◌+◌, ◌<◌, ◌≡◌, Bool, true, false, ◌∷◌}
use audio_server.Common.Int.{ℤ, pos}
use audio_server.Ffmpeg.{
  Pointer, Call, History, Library, av_audio_fifo_size, av_audio_fifo_write, av_audio_fifo_read,
  avcodec_send_frame, avcodec_receive_packet,
}

-- The calls that move samples into a FIFO or out of one, and those that give the encoder a frame or
-- take a packet from it.
abbrev pub moves_samples : Call → Bool
moves_samples c = elim c as (λ _. Bool) [
  | av_audio_fifo_write _ _ ↦ true
  | av_audio_fifo_read _ _ ↦ true
  | _ ↦ false
]

abbrev pub runs_encoder : Call → Bool
runs_encoder c = elim c as (λ _. Bool) [
  | avcodec_send_frame _ _ ↦ true
  | avcodec_receive_packet ↦ true
  | _ ↦ false
]

-- `queued` is the number of samples in the FIFO, and `ready` the number of packets that the encoder
-- has ready.
pub record Contract (answer : Library) (fifo : Pointer) : Type 0 where
  pub queued : History → ℕ
  pub ready : History → ℕ
  pub queued_size : (h : History) → answer h (av_audio_fifo_size fifo) ≡ pos (queued h)
  pub queued_read :
      (h : History) (n r : ℕ)
      → answer h (av_audio_fifo_read fifo n) ≡ pos r
      → queued ((av_audio_fifo_read fifo n, pos r) ∷ h) + r ≡ queued h
  pub queued_same :
      (h : History) (c : Call) (r : ℤ) → moves_samples c ≡ false → queued ((c, r) ∷ h) ≡ queued h
  pub ready_receive :
      (h : History)
      → answer h avcodec_receive_packet ≡ pos 0
      → ready ((avcodec_receive_packet, pos 0) ∷ h) < ready h
  pub ready_same :
      (h : History) (c : Call) (r : ℤ) → runs_encoder c ≡ false → ready ((c, r) ∷ h) ≡ ready h
