-- ===== src/Ffmpeg/Order.antt =====
-- Which calls come before which: the functions of ffmpeg_utils.cpp add their calls to those that
-- were made, and the header of the output is written once it is there.
use audio_server.Common.{
  ℕ, ◌+◌, ◌≡◌, refl, Bool, true, false, Bool-cases, inl, inr, [], ◌∷◌, ◌||◌, if◌then◌else◌,
}
use audio_server.Common.Int.{ℤ, is_negative, is_set, less_than, to_ℕ}
use audio_server.Ffmpeg.{
  Input, pointer_array, sample_array, M, Outcome, done, undefined, out_of_fuel, when_done, Pointer,
  Call, History, Library, call, av_frame_alloc, av_frame_get_buffer, calloc, av_samples_alloc,
  CodecContext, init_converted_samples, convert_samples, add_samples_to_fifo,
  free_converted_samples, init_output_frame, swr_convert, av_audio_fifo_size, av_audio_fifo_realloc,
  av_audio_fifo_write, avformat_write_header,
}

-- The second list of calls has more calls than the first, behind those of the first.
pub data Extends (old : History) : History → Type 0 where
  same : Extends old old
  more : {c : Call} {r : ℤ} {h : History} → Extends old h → Extends old ((c, r) ∷ h)

pub when_done-Extends :
    {A B : Type 0} (old : History) (rest : A → M (Outcome B)) (r : Outcome A × History)
    → Extends old r.1
    → ((a : A) (h : History) → Extends old h → Extends old (rest a h).1)
    → Extends old (when_done rest r.0 r.1).1
when_done-Extends old rest (done a, h) before step = step a h before
when_done-Extends old rest (undefined, h) before step = before
when_done-Extends old rest (out_of_fuel, h) before step = before

abbrev is_header : Call → ℤ → Bool
is_header c r = elim c as (λ _. Bool) [
  | avformat_write_header _ ↦ (if is_negative r then false else true)
  | _ ↦ false
]

-- The header of the output file was written.
abbrev pub header_written : History → Bool
header_written [] = false
header_written ((c, r) ∷ h) = is_header c r || header_written h

once_written : (b : Bool) → (b || true) ≡ true
once_written true = refl
once_written false = refl

pub header_written-Extends :
    (old h : History) → Extends old h → header_written old ≡ true → header_written h ≡ true
header_written-Extends old _ same before = before
header_written-Extends old _ (more {c} {r} {h} extends) before =
    rw (header_written-Extends old h extends before) (once_written (is_header c r))

module _ (answer : Library) (context : CodecContext) (old : History) where
  pub init_converted_samples-Extends :
      (size : ℕ) (h : History)
      → Extends old h
      → Extends old (init_converted_samples answer context size h).1
  unfolding init_converted_samples call
  init_converted_samples-Extends size h before =
      elim (Bool-cases (is_set (answer h (calloc context.channels)))) [
        | inr e ↦ rw e (more before)
        | inl e ↦
            rw e
              (elim (Bool-cases (
                is_negative
                  (call answer (av_samples_alloc context.channels size context.sample_fmt)
                    (call answer (calloc context.channels) h).1).0)) [
                      | inl e' ↦ rw e' (more (more (more (more before))))
                      | inr e' ↦ rw e' (more (more before))
                    ])
      ]

  pub init_output_frame-Extends :
      (size : ℕ) (h : History)
      → Extends old h
      → Extends old (init_output_frame answer context size h).1
  unfolding init_output_frame call
  init_output_frame-Extends size h before = elim (Bool-cases (is_set (answer h av_frame_alloc))) [
    | inr e ↦ rw e (more before)
    | inl e ↦
        rw e
          (elim (Bool-cases
            (is_negative (call answer av_frame_get_buffer (call answer av_frame_alloc h).1).0)) [
              | inl e' ↦ rw e' (more (more (more before)))
              | inr e' ↦ rw e' (more (more before))
            ])
  ]

  pub free_converted_samples-Extends :
      (h : History) → Extends old h → Extends old (free_converted_samples answer h).1
  unfolding free_converted_samples call
  free_converted_samples-Extends h before = more (more before)

  pub convert_samples-Extends :
      (input : Input) (size : ℕ) (resample_context : Pointer) (h : History)
      → Extends old h
      → Extends old (convert_samples answer input size resample_context h).1
  unfolding convert_samples call
  convert_samples-Extends sample_array size resample_context h before = before
  convert_samples-Extends pointer_array size resample_context h before =
      elim (Bool-cases (is_negative (answer h (swr_convert resample_context size)))) [
        | inl e ↦ rw e (more before)
        | inr e ↦ rw e (more before)
      ]

  pub add_samples_to_fifo-Extends :
      (fifo : Pointer) (size : ℕ) (h : History)
      → Extends old h
      → Extends old (add_samples_to_fifo answer fifo size h).1
  unfolding add_samples_to_fifo call
  add_samples_to_fifo-Extends fifo size h before = elim (Bool-cases (is_set fifo)) [
    | inr null ↦ rw null before
    | inl there ↦ rw there (elim (Bool-cases (is_negative error.0)) [
      | inl e ↦ rw e (more (more before))
      | inr e ↦
          rw e
            (elim (Bool-cases
              (less_than (call answer (av_audio_fifo_write fifo size) error.1).0 size)) [
                | inl e' ↦ rw e' (more (more (more before)))
                | inr e' ↦ rw e' (more (more (more before)))
              ])
    ])
  ]
    where
      error : ℤ × History
      error =
          let measured = call answer (av_audio_fifo_size fifo) h in
          call answer (av_audio_fifo_realloc fifo (to_ℕ measured.0 + size)) measured.1
