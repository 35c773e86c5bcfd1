-- ===== src/Session/Release/Samples.antt =====
-- The resources of Ffmpeg/Ledger where `process_pcm_data_send_request` converts samples and stores
-- them in the FIFO.
use audio_server.Common.{ℕ, ◌≡◌, Bool, true, false, some, Bool-cases, inl, inr, if◌then◌else◌}
use audio_server.Common.Int.{ℤ, is_set}
use audio_server.Ffmpeg.{
  Input, done, when_done, History, Library, ◌>>=◌, ◌>>◌, return, init_converted_samples,
  convert_samples, add_samples_to_fifo, free_converted_samples,
}
use audio_server.Ffmpeg.Ledger.{Resource, held, plus_converted, DoneHeld, when_done-DoneHeld}
use audio_server.Ffmpeg.Release.{
  held-init_converted_samples, held-free_converted_samples, convert_samples-DoneHeld,
  add_samples_to_fifo-DoneHeld,
}
use audio_server.Session.{Media}
use audio_server.Session.Pcm.{store_samples}

module _ (resource : Resource) (answer : Library) (media : Media) where
  freed :
      (b : Bool) (h : History) (n : ℕ)
      → held resource h ≡ some (plus_converted resource n)
      → DoneHeld resource n ((do free_converted_samples answer; return (done b)) h)
  freed b h n before = held-free_converted_samples resource answer media.enc_ctx h n before

  -- From the conversion's result on.
  converted_held :
      (size : ℕ) (error : ℤ) (h : History) (n : ℕ)
      → held resource h ≡ some (plus_converted resource n)
      → DoneHeld resource n (
          (if is_set error then (do free_converted_samples answer; return (done false)) else (do
            added ← add_samples_to_fifo answer media.audio_fifo size
            when_done
                (λ error. do
                  free_converted_samples answer
                  return (done (if is_set error then false else true)))
                added))
            h)
  converted_held size error h n before = elim (Bool-cases (is_set error)) [
    | inl e ↦ rw e (freed false h n before)
    | inr e ↦ rw e (
        when_done-DoneHeld resource (plus_converted resource n) n _
          (add_samples_to_fifo answer media.audio_fifo size h)
          (add_samples_to_fifo-DoneHeld resource answer media.enc_ctx media.audio_fifo size h _
            before)
          (λ error' h' before'. freed (if is_set error' then false else true) h' n before'))
  ]

  -- When the samples are stored, or refused, nothing more is held than before.
  pub store_samples-DoneHeld :
      (input : Input) (size : ℕ) (h : History) (n : ℕ)
      → held resource h ≡ some n
      → DoneHeld resource n (store_samples answer media input size h)
  unfolding store_samples
  store_samples-DoneHeld input size h n before =
      elim (held-init_converted_samples resource answer media.enc_ctx size h n before) [
        | inr (e, same) ↦ rw e same
        | inl (e, more, released) ↦ rw e (
            when_done-DoneHeld resource (plus_converted resource n) n _
              (convert_samples answer input size media.resample_context
                (init_converted_samples answer media.enc_ctx size h).1)
              (convert_samples-DoneHeld resource answer media.enc_ctx input size
                media.resample_context _ _ more)
              (λ error h' before'. converted_held size error h' n before'))
      ]
