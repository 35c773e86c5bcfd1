-- ===== src/Server/Output/Configured.antt =====
-- What the members of the server are when `open_output_file` returns true, from the last parts of
-- the function on.
use audio_server.Common.{ℕ, ◌≡◌, refl, Bool, Bool-cases, inl, inr, true, false, some, ◌∷◌}
use audio_server.Common.Int.{ℤ, pos, is_set, is_negative}
use audio_server.Ffmpeg.{
  Pointer, null, CodecId, CodecContext, History, Library, call, init_resampler, get_flags,
  av_new_program, avio_open, avformat_write_header, swr_init, swr_alloc_set_opts,
}
use audio_server.Ffmpeg.Order.{header_written}
use audio_server.Ffmpeg.Release.{negative_set}
use audio_server.Session.{Outcome, done, undefined, out_of_fuel}
use audio_server.System.{Settings, get_bitrate, get_sample_rate}
use audio_server.Server.Output.{
  OutputMembers, codec_id, write_header, open_file, add_program, open_resampler, has_no_file,
  av_ch_layout_stereo,
}

-- The encoder that the settings ask for.
abbrev pub IsConfigured : Settings → CodecContext → Type 0
IsConfigured settings codec =
    (codec.channel_layout ≡ av_ch_layout_stereo)
    × (codec.sample_rate ≡ get_sample_rate settings)
    × (codec.bit_rate ≡ get_bitrate settings)
    × (codec.time_base ≡ (pos 1, get_sample_rate settings))

-- The members but the resampler.
abbrev pub IsPrepared : Settings → OutputMembers → Type 0
IsPrepared settings o =
    ((id : CodecId) × (codec_id settings.codec_name ≡ some id))
    × (is_set o.ofmt_ctx ≡ true)
    × (is_set o.enc_ctx ≡ true)
    × IsConfigured settings o.codec
    × (o.audio_fifo ≡ null)

abbrev pub IsOpened : Settings → OutputMembers → Type 0
IsOpened settings o = IsPrepared settings o × (is_set o.resample_context ≡ true)

abbrev pub WhenOpened : Settings → Outcome (Bool × OutputMembers) × History → Type 0
WhenOpened settings (done (true, o), h) = IsOpened settings o × (header_written h ≡ true)
WhenOpened settings (done (false, o), h) = Unit
WhenOpened settings (undefined, h) = Unit
WhenOpened settings (out_of_fuel, h) = Unit

resampler_set :
    (answer : Library) (out_fmt in_fmt : ℤ) (layout : ℕ) (rate : ℤ) (h : History)
    → is_set (init_resampler answer out_fmt in_fmt layout rate h).0.0 ≡ false
    → is_set (init_resampler answer out_fmt in_fmt layout rate h).0.1 ≡ true
unfolding init_resampler call
resampler_set answer out_fmt in_fmt layout rate h = elim (Bool-cases (is_set context)) [
  | inr e ↦ rw e (λ none_wrong. absurd (cc))
  | inl e ↦ rw e (elim (Bool-cases (is_negative error)) [
    | inl e' ↦ rw e' (λ none_wrong. absurd (cc (negative_set error e', none_wrong)))
    | inr e' ↦ rw e' (λ none_wrong. e)
  ])
]
  where
    context : Pointer
    context = answer h (swr_alloc_set_opts out_fmt in_fmt layout rate)

    error : ℤ
    error = answer ((swr_alloc_set_opts out_fmt in_fmt layout rate, context) ∷ h) (swr_init context)

module _ (answer : Library) (settings : Settings) where
  write_header-WhenOpened :
      (o : OutputMembers) (h : History)
      → IsOpened settings o
      → WhenOpened settings (write_header answer settings o h)
  unfolding write_header call
  write_header-WhenOpened o h ready =
      elim (Bool-cases (is_negative (call answer (avformat_write_header o.ofmt_ctx) h).0)) [
        | inl e ↦ rw e tt
        | inr e ↦ rw e (ready, rw e refl)
      ]

  open_file-WhenOpened :
      (o : OutputMembers) (h : History)
      → IsOpened settings o
      → WhenOpened settings (open_file answer settings o h)
  unfolding open_file
  open_file-WhenOpened o h ready = elim (Bool-cases (has_no_file flags.0)) [
    | inl e ↦ rw e (write_header-WhenOpened o _ ready)
    | inr e ↦
        rw e
          (elim (Bool-cases
            (is_negative (call answer (avio_open o.ofmt_ctx settings.output_url 2) flags.1).0)) [
              | inl e' ↦ rw e' tt
              | inr e' ↦ rw e' (write_header-WhenOpened (record o { pb_open = true }) _ ready)
            ])
  ]
    where
      flags : ℤ × History
      flags = call answer (get_flags o.ofmt_ctx) h

  add_program-WhenOpened :
      (o : OutputMembers) (h : History)
      → IsOpened settings o
      → WhenOpened settings (add_program answer settings o h)
  unfolding add_program
  add_program-WhenOpened o h ready =
      elim (Bool-cases (is_set (call answer (av_new_program o.ofmt_ctx 1) h).0)) [
        | inl e ↦ rw e (open_file-WhenOpened o _ ready)
        | inr e ↦ rw e tt
      ]

  pub open_resampler-WhenOpened :
      (o : OutputMembers) (h : History)
      → IsPrepared settings o
      → WhenOpened settings (open_resampler answer settings o h)
  unfolding open_resampler
  open_resampler-WhenOpened o h ready = elim (Bool-cases (is_set made.0.0)) [
    | inl e ↦ rw e tt
    | inr e ↦ rw e (
        add_program-WhenOpened (record o { resample_context = made.0.1 }) made.1
          (ready, resampler_set answer _ _ _ _ h e))
  ]
    where
      made : (ℤ × Pointer) × History
      made =
          init_resampler answer o.codec.sample_fmt (pos 1) o.codec.channel_layout
            o.codec.sample_rate h
