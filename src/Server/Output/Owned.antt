-- ===== src/Server/Output/Owned.antt =====
-- What the members of the server point to, and the last parts of `open_output_file`, from the
-- resampler on.
use audio_server.Common.{
  ℕ, ◌+◌, ◌≡◌, refl, ap, ◌∙◌, Bool, Bool-cases, ◌&&◌, inl, inr, true, false, some, arith, ◌∷◌,
  if◌then◌else◌,
}
use audio_server.Common.Int.{ℤ, pos, is_set, is_negative}
use audio_server.Ffmpeg.{
  Pointer, null, Call, History, Library, call, init_resampler, get_flags, av_new_program, avio_open,
  avformat_write_header,
}
use audio_server.Ffmpeg.Ledger.{
  Resource, effect, unchanged, format_context, output_file, codec_context, resampler, fifo, unit,
  held, unchanged_held, acquired_held,
}
use audio_server.Ffmpeg.Release.{ResamplerHeld, held-init_resampler}
use audio_server.Session.{Outcome, done, undefined, out_of_fuel}
use audio_server.System.{Settings}
use audio_server.Server.Output.{
  OutputMembers, write_header, open_file, add_program, open_resampler, has_no_file,
}

abbrev pub owns : Bool → Resource → Resource → ℕ
owns present k resource = if present then unit k resource else 0

-- How many of a resource the members point to; `pb` is a member of the format context.
abbrev pub owned : Resource → OutputMembers → ℕ
owned resource o =
    owns (is_set o.ofmt_ctx) format_context resource
    + owns (is_set o.ofmt_ctx && o.pb_open) output_file resource
    + owns (is_set o.enc_ctx) codec_context resource
    + owns (is_set o.resample_context) resampler resource
    + owns (is_set o.audio_fifo) fifo resource

-- What is held is what `n` counts and what the members point to. Where the behaviour is undefined,
-- these are the members at that time.
abbrev pub Accounted : Resource → ℕ → Outcome (Bool × OutputMembers) × History → Type 0
Accounted resource n (done (_, o), h) = held resource h ≡ some (n + owned resource o)
Accounted resource n (undefined, h) =
    (o : OutputMembers) × (held resource h ≡ some (n + owned resource o))
Accounted resource n (out_of_fuel, h) = ⊥

module _ (resource : Resource) (answer : Library) (settings : Settings) (n : ℕ) where
  Fits : OutputMembers → History → Type 0
  Fits o h = held resource h ≡ some (n + owned resource o)

  -- A call that neither acquires nor releases.
  pub call_kept :
      (c : Call) (o : OutputMembers) (h : History)
      → effect c (answer h c) ≡ unchanged
      → held resource h ≡ some (n + owned resource o)
      → held resource (call answer c h).1 ≡ some (n + owned resource o)
  unfolding call
  call_kept c o h e before = unchanged_held resource c (answer h c) h _ e before

  write_header-Accounted :
      (o : OutputMembers) (h : History)
      → held resource h ≡ some (n + owned resource o)
      → Accounted resource n (write_header answer settings o h)
  unfolding write_header
  write_header-Accounted o h before =
      let after = call_kept (avformat_write_header o.ofmt_ctx) o h refl before in
      elim (Bool-cases (is_negative (call answer (avformat_write_header o.ofmt_ctx) h).0)) [
        | inl e ↦ rw e after
        | inr e ↦ rw e after
      ]

  open_file-Accounted :
      (o : OutputMembers) (h : History)
      → is_set o.ofmt_ctx ≡ true
      → o.pb_open ≡ false
      → held resource h ≡ some (n + owned resource o)
      → Accounted resource n (open_file answer settings o h)
  unfolding open_file call
  open_file-Accounted o h there shut before = elim (Bool-cases (has_no_file flags)) [
    | inl e ↦ rw e (write_header-Accounted o flagged after)
    | inr e ↦ rw e (elim (Bool-cases (is_negative ret)) [
      | inl e' ↦ rw e' (call_kept opening o flagged (rw e' refl) after)
      | inr e' ↦ rw e' (
          write_header-Accounted (record o { pb_open = true }) ((opening, ret) ∷ flagged)
            (acquired_held resource opening ret flagged _ output_file (rw e' refl) after
              ∙ ap some (rw (there, shut) (omega arith))))
    ])
  ]
    where
      flags : ℤ
      flags = answer h (get_flags o.ofmt_ctx)

      flagged : History
      flagged = (get_flags o.ofmt_ctx, flags) ∷ h

      opening : Call
      opening = avio_open o.ofmt_ctx settings.output_url 2

      ret : ℤ
      ret = answer flagged opening

      after : held resource flagged ≡ some (n + owned resource o)
      after = call_kept (get_flags o.ofmt_ctx) o h refl before

  add_program-Accounted :
      (o : OutputMembers) (h : History)
      → is_set o.ofmt_ctx ≡ true
      → o.pb_open ≡ false
      → held resource h ≡ some (n + owned resource o)
      → Accounted resource n (add_program answer settings o h)
  unfolding add_program call
  add_program-Accounted o h there shut before =
      let after = call_kept (av_new_program o.ofmt_ctx 1) o h refl before in
      elim (Bool-cases (is_set (answer h (av_new_program o.ofmt_ctx 1)))) [
        | inr e ↦ rw e (o, after)
        | inl e ↦ rw e (
            open_file-Accounted o _ there shut
              (call_kept _ o _ refl (call_kept _ o _ refl (call_kept _ o _ refl after))))
      ]

  pub open_resampler-Accounted :
      (o : OutputMembers) (h : History)
      → is_set o.ofmt_ctx ≡ true
      → o.pb_open ≡ false
      → o.resample_context ≡ null
      → held resource h ≡ some (n + owned resource o)
      → Accounted resource n (open_resampler answer settings o h)
  unfolding open_resampler
  open_resampler-Accounted o h there shut none_yet before = elim ended [
    | inl (context, e, e', after) ↦ rw e (
        add_program-Accounted (record o { resample_context = context }) resampler_made.1 there shut
          (after ∙ ap some (rw (none_yet, e') (omega arith))))
    | inr (error, context, e, e', e'', after) ↦
        rw (e, e') (after ∙ ap some (rw (none_yet, e'') refl))
  ]
    where
      resampler_made : (ℤ × Pointer) × History
      resampler_made =
          init_resampler answer o.codec.sample_fmt (pos 1) o.codec.channel_layout
            o.codec.sample_rate h

      ended : ResamplerHeld resource (n + owned resource o) resampler_made
      ended =
          held-init_resampler resource answer o.codec.sample_fmt (pos 1) o.codec.channel_layout
            o.codec.sample_rate h _ before
