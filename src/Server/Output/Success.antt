-- ===== src/Server/Output/Success.antt =====
-- When `open_output_file` of a server that was just constructed returns true.
use audio_server.Common.{
  ◌≡◌, refl, sym, ◌∙◌, Bool, Bool-cases, inl, inr, true, false, some, if◌then◌else◌,
}
use audio_server.Common.Int.{ℤ, pos, is_set, is_negative}
use audio_server.Ffmpeg.{
  Pointer, CodecId, Call, History, Library, call, init_resampler, avformat_alloc_output_context2,
  avformat_new_stream, avcodec_find_encoder, avcodec_alloc_context3, get_flags, avcodec_open2,
  avcodec_parameters_from_context, av_new_program, avio_open, avformat_write_header, swr_init,
  swr_alloc_set_opts,
}
use audio_server.Session.{Outcome, done}
use audio_server.System.{Settings}
use audio_server.Server.Output.{
  OutputMembers, no_output, codec_id, write_header, open_file, add_program, open_resampler,
  open_encoder, add_stream, add_codec, open_output_file, has_no_file,
}

abbrev not : Bool → Bool
not b = if b then false else true

-- A result of a call that is no failure: a pointer that is not null, an error code that is not
-- negative, or, where the code tests for it, 0.
abbrev pub succeeds : Call → ℤ → Bool
succeeds c r = elim c as (λ _. Bool) [
  | avformat_alloc_output_context2 _ _ ↦ is_set r
  | avformat_new_stream _ ↦ is_set r
  | avcodec_find_encoder _ ↦ is_set r
  | avcodec_alloc_context3 _ ↦ is_set r
  | swr_alloc_set_opts _ _ _ _ ↦ is_set r
  | av_new_program _ _ ↦ is_set r
  | avcodec_open2 _ _ _ ↦ not (is_negative r)
  | swr_init _ ↦ not (is_negative r)
  | avio_open _ _ _ ↦ not (is_negative r)
  | avformat_write_header _ ↦ not (is_negative r)
  | avcodec_parameters_from_context _ _ ↦ not (is_set r)
  | _ ↦ true
]

was_false : (b : Bool) → not b ≡ true → b ≡ false
was_false true e = absurd (cc)
was_false false e = refl

abbrev pub Opens : Outcome (Bool × OutputMembers) → Type 0
Opens result = (o : OutputMembers) × (result ≡ done (true, o))

module _ (answer : Library) (settings : Settings)
    (all : (h : History) (c : Call) → succeeds c (answer h c) ≡ true) where
  not_negative :
      (c : Call)
      → ((r : ℤ) → succeeds c r ≡ not (is_negative r))
      → (h : History) → is_negative (answer h c) ≡ false
  not_negative c tested h = was_false _ (sym (tested (answer h c)) ∙ all h c)

  write_header-Opens :
      (o : OutputMembers) (h : History) → Opens (write_header answer settings o h).0
  unfolding write_header call
  write_header-Opens o h =
      rw (not_negative (avformat_write_header o.ofmt_ctx) (λ r. refl)) (o, refl)

  open_file-Opens : (o : OutputMembers) (h : History) → Opens (open_file answer settings o h).0
  unfolding open_file call
  open_file-Opens o h = elim (Bool-cases (has_no_file (answer h (get_flags o.ofmt_ctx)))) [
    | inl e ↦ rw e (write_header-Opens o _)
    | inr e ↦
        rw (e, not_negative (avio_open o.ofmt_ctx settings.output_url 2) (λ r. refl))
          (write_header-Opens (record o { pb_open = true }) _)
  ]

  add_program-Opens : (o : OutputMembers) (h : History) → Opens (add_program answer settings o h).0
  unfolding add_program call
  add_program-Opens o h = rw (all h (av_new_program o.ofmt_ctx 1)) (open_file-Opens o _)

  open_resampler-Opens :
      (o : OutputMembers) (h : History) → Opens (open_resampler answer settings o h).0
  unfolding open_resampler init_resampler call
  open_resampler-Opens o h =
      rw
        (
          all h (
              swr_alloc_set_opts o.codec.sample_fmt (pos 1) o.codec.channel_layout
                o.codec.sample_rate),
          not_negative (swr_init context) (λ r. refl),
        )
        (add_program-Opens (record o { resample_context = context }) _)
    where
      context : Pointer
      context =
          answer h (
            swr_alloc_set_opts o.codec.sample_fmt (pos 1) o.codec.channel_layout
              o.codec.sample_rate)

  open_encoder-Opens :
      (out_stream encoder : Pointer) (o : OutputMembers) (h : History)
      → Opens (open_encoder answer settings out_stream encoder o h).0
  unfolding open_encoder call
  open_encoder-Opens out_stream encoder o h =
      rw (not_negative (avcodec_open2 o.enc_ctx encoder _) (λ r. refl), copied)
        (open_resampler-Opens _ _)
    where
      copied :
          (h' : History)
          → is_set (answer h' (avcodec_parameters_from_context out_stream o.enc_ctx)) ≡ false
      copied h' = was_false _ (all h' (avcodec_parameters_from_context out_stream o.enc_ctx))

  add_stream-Opens :
      (id : CodecId) (o : OutputMembers) (h : History) → Opens (add_stream answer settings id o h).0
  unfolding add_stream call
  add_stream-Opens id o h =
      rw
        (
          all _ (avformat_new_stream o.ofmt_ctx),
          all _ (avcodec_find_encoder id),
          all _ (avcodec_alloc_context3 _),
        )
        (open_encoder-Opens _ _ _ _)

-- If no call of libav fails, and the codec's name is one of the two that the code knows, then
-- `open_output_file` of a server that was just constructed returns true.
pub open_output_file-Opens :
    (answer : Library) (settings : Settings) (id : CodecId) (h : History)
    → ((h : History) (c : Call) → succeeds c (answer h c) ≡ true)
    → codec_id settings.codec_name ≡ some id
    → Opens (open_output_file answer settings no_output h).0
unfolding open_output_file add_codec call
open_output_file-Opens answer settings id h all known =
    rw (all h (avformat_alloc_output_context2 "mpegts" settings.output_url), known)
      (add_stream-Opens answer settings all id _ _)
