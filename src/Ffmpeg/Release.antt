-- ===== src/Ffmpeg/Release.antt =====
-- The resources of Ffmpeg/Ledger over the functions of ffmpeg_utils.cpp.
use audio_server.Common.{ℕ, ◌+◌, ◌≡◌, refl, true, false, some, ◌∷◌, Bool-cases, ◌⊎◌, inl, inr}
use audio_server.Common.Int.{ℤ, pos, negsuc, is_negative, is_set, less_than, to_ℕ}
use audio_server.Ffmpeg.{
  Input, pointer_array, sample_array, Pointer, Call, History, Library, call, av_frame_alloc,
  av_frame_get_buffer, av_frame_free, calloc, av_freep, free, av_samples_alloc, CodecContext,
  init_converted_samples, convert_samples, add_samples_to_fifo, free_converted_samples,
  init_output_frame, Frame, failed, made, success, swr_convert, av_audio_fifo_size,
  av_audio_fifo_realloc, av_audio_fifo_write, init_resampler, swr_alloc_set_opts, swr_init,
  swr_free,
}
use audio_server.Ffmpeg.Ledger.{
  Resource, frame, pointers, sample_block, resampler, held, plus, plus_converted, DoneHeld,
  unchanged_held, acquired_held, released_held,
}

pub negative_set : (r : ℤ) → is_negative r ≡ true → is_set r ≡ true
negative_set (pos n) e = absurd (cc)
negative_set (negsuc n) e = refl

module _ (resource : Resource) (answer : Library) (context : CodecContext) where
  pub held-free_converted_samples :
      (h : History) (n : ℕ)
      → held resource h ≡ some (plus_converted resource n)
      → held resource (free_converted_samples answer h).1 ≡ some n
  unfolding free_converted_samples call
  held-free_converted_samples h n before =
      released_held resource free _ _ n pointers refl
        (released_held resource (av_freep true) _ h _ sample_block refl before)

  -- `init_converted_samples` returns 0 and holds the array of pointers and the block of samples,
  -- and then `free_converted_samples` releases both; or it returns an error and holds nothing more
  -- than before.
  pub held-init_converted_samples :
      (size : ℕ) (h : History) (n : ℕ)
      → held resource h ≡ some n
      → (((init_converted_samples answer context size h).0 ≡ success)
          × (held resource (init_converted_samples answer context size h).1
              ≡ some (plus_converted resource n))
          × (held resource
                (free_converted_samples answer (init_converted_samples answer context size h).1).1
              ≡ some n))
        ⊎ ((is_set (init_converted_samples answer context size h).0 ≡ true)
            × (held resource (init_converted_samples answer context size h).1 ≡ some n))
  unfolding init_converted_samples call
  held-init_converted_samples size h n before = elim (Bool-cases (is_set pointer)) [
    | inr e ↦ rw e (
        inr
          (refl, unchanged_held resource (calloc context.channels) pointer h n (rw e refl) before))
    | inl e ↦ rw e (elim (Bool-cases (is_negative error)) [
      | inr e' ↦
          rw e'
            (inl (refl, held_both e e', held-free_converted_samples with_block n (held_both e e')))
      | inl e' ↦ rw e' (
          inr (
            negative_set error e',
            released_held resource free _ _ n pointers refl (
                unchanged_held resource (av_freep false) _ _ _ refl
                  (unchanged_held resource alloc error allocated _ (rw e' refl) (held_pointers e))),
          ))
    ])
  ]
    where
      pointer : ℤ
      pointer = answer h (calloc context.channels)

      allocated : History
      allocated = (calloc context.channels, pointer) ∷ h

      alloc : Call
      alloc = av_samples_alloc context.channels size context.sample_fmt

      error : ℤ
      error = answer allocated alloc

      with_block : History
      with_block = (alloc, error) ∷ allocated

      held_pointers :
          is_set pointer ≡ true → held resource allocated ≡ some (plus pointers resource n)
      held_pointers e =
          acquired_held resource (calloc context.channels) pointer h n pointers (rw e refl) before

      held_both :
          is_set pointer ≡ true
          → is_negative error ≡ false
          → held resource with_block ≡ some (plus_converted resource n)
      held_both e e' =
          acquired_held resource alloc error allocated _ sample_block (rw e' refl) (held_pointers e)

  -- `init_output_frame` gives a frame and holds it, or it fails and holds nothing more than before.
  pub held-init_output_frame :
      (size : ℕ) (h : History) (n : ℕ)
      → held resource h ≡ some n
      → ((f : Frame) × ((init_output_frame answer context size h).0 ≡ made f)
          × (held resource (init_output_frame answer context size h).1
              ≡ some (plus frame resource n)))
        ⊎ ((error : ℤ) × ((init_output_frame answer context size h).0 ≡ failed error)
            × (held resource (init_output_frame answer context size h).1 ≡ some n))
  unfolding init_output_frame call
  held-init_output_frame size h n before = elim (Bool-cases (is_set pointer)) [
    | inr e ↦
        rw e (inr (_, refl, unchanged_held resource av_frame_alloc pointer h n (rw e refl) before))
    | inl e ↦ rw e (elim (Bool-cases (is_negative error)) [
      | inr e' ↦ rw e' (inl (_, refl, held_after e))
      | inl e' ↦
          rw e'
            (inr (_, refl, released_held resource av_frame_free _ _ n frame refl (held_after e)))
    ])
  ]
    where
      pointer : ℤ
      pointer = answer h av_frame_alloc

      allocated : History
      allocated = (av_frame_alloc, pointer) ∷ h

      error : ℤ
      error = answer allocated av_frame_get_buffer

      held_after :
          is_set pointer ≡ true
          → held resource ((av_frame_get_buffer, error) ∷ allocated) ≡ some (plus frame resource n)
      held_after e =
          unchanged_held resource av_frame_get_buffer error allocated (plus frame resource n) refl
            (acquired_held resource av_frame_alloc pointer h n frame (rw e refl) before)

  pub convert_samples-DoneHeld :
      (input : Input) (size : ℕ) (resample_context : Pointer) (h : History) (n : ℕ)
      → held resource h ≡ some n
      → DoneHeld resource n (convert_samples answer input size resample_context h)
  unfolding convert_samples call
  convert_samples-DoneHeld sample_array size resample_context h n before = tt
  convert_samples-DoneHeld pointer_array size resample_context h n before =
      let after = unchanged_held resource (swr_convert resample_context size) _ h n refl before in
      elim (Bool-cases (is_negative (answer h (swr_convert resample_context size)))) [
        | inl e ↦ rw e after
        | inr e ↦ rw e after
      ]

  pub add_samples_to_fifo-DoneHeld :
      (fifo : Pointer) (size : ℕ) (h : History) (n : ℕ)
      → held resource h ≡ some n
      → DoneHeld resource n (add_samples_to_fifo answer fifo size h)
  unfolding add_samples_to_fifo call
  add_samples_to_fifo-DoneHeld fifo size h n before = elim (Bool-cases (is_set fifo)) [
    | inr null ↦ rw null tt
    | inl there ↦ rw there (elim (Bool-cases (is_negative error)) [
      | inl e ↦ rw e reallocated_held
      | inr e ↦ rw e (elim (Bool-cases (less_than written size)) [
        | inl e' ↦ rw e' written_held
        | inr e' ↦ rw e' written_held
      ])
    ])
  ]
    where
      measured : History
      measured = (av_audio_fifo_size fifo, answer h (av_audio_fifo_size fifo)) ∷ h

      realloc : Call
      realloc = av_audio_fifo_realloc fifo (to_ℕ (answer h (av_audio_fifo_size fifo)) + size)

      error : ℤ
      error = answer measured realloc

      reallocated : History
      reallocated = (realloc, error) ∷ measured

      written : ℤ
      written = answer reallocated (av_audio_fifo_write fifo size)

      reallocated_held : held resource reallocated ≡ some n
      reallocated_held =
          unchanged_held resource realloc error measured n refl
            (unchanged_held resource (av_audio_fifo_size fifo) _ h n refl before)

      written_held : held resource ((av_audio_fifo_write fifo size, written) ∷ reallocated) ≡ some n
      written_held =
          unchanged_held resource (av_audio_fifo_write fifo size) written reallocated n refl
            reallocated_held

-- A resampler is returned and held, or an error is, the pointer is null, and `n` is held.
abbrev pub ResamplerHeld : Resource → ℕ → (ℤ × Pointer) × History → Type 0
ResamplerHeld resource n (returned, h) =
    ((context : Pointer) × (returned ≡ (success, context))
      × (is_set context ≡ true)
      × (held resource h ≡ some (plus resampler resource n)))
    ⊎ ((error : ℤ) × (context : Pointer) × (returned ≡ (error, context))
        × (is_set error ≡ true)
        × (is_set context ≡ false)
        × (held resource h ≡ some n))

module _ (resource : Resource) (answer : Library) where
  -- `init_resampler` gives a resampler and holds it, or it fails, makes the pointer null and holds
  -- nothing more than before.
  pub held-init_resampler :
      (out_fmt in_fmt : ℤ) (layout : ℕ) (rate : ℤ) (h : History) (n : ℕ)
      → held resource h ≡ some n
      → ResamplerHeld resource n (init_resampler answer out_fmt in_fmt layout rate h)
  unfolding init_resampler call
  held-init_resampler out_fmt in_fmt layout rate h n before = elim (Bool-cases (is_set context)) [
    | inr e ↦
        rw e
          (inr (_, _, refl, refl, e, unchanged_held resource alloc context h n (rw e refl) before))
    | inl e ↦ rw e (elim (Bool-cases (is_negative error)) [
      | inr e' ↦ rw e' (inl (_, refl, e, initialised e))
      | inl e' ↦ rw e' (
          inr (
            _,
            _,
            refl,
            negative_set error e',
            refl,
            released_held resource (swr_free context) _ _ n resampler (rw e refl) (initialised e),
          ))
    ])
  ]
    where
      alloc : Call
      alloc = swr_alloc_set_opts out_fmt in_fmt layout rate

      context : Pointer
      context = answer h alloc

      allocated : History
      allocated = (alloc, context) ∷ h

      error : ℤ
      error = answer allocated (swr_init context)

      initialised :
          is_set context ≡ true
          → held resource ((swr_init context, error) ∷ allocated) ≡ some (plus resampler resource n)
      initialised e =
          unchanged_held resource (swr_init context) error allocated _ refl
            (acquired_held resource alloc context h n resampler (rw e refl) before)
