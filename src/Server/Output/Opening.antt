-- ===== src/Server/Output/Opening.antt =====
-- What the server holds after `open_output_file`, on every path.
use audio_server.Common.{
  ℕ, ◌+◌, ◌-◌, ◌^◌, ◌≡◌, refl, ap, ◌∙◌, Bool-cases, inl, inr, true, false, Option, some, none,
  arith, ◌∷◌,
}
use audio_server.Common.Int.{ℤ, pos, is_set, is_negative}
use audio_server.Ffmpeg.{
  Pointer, null, CodecId, Call, History, Library, call, avformat_alloc_output_context2,
  set_audio_codec_id, set_duration, avformat_new_stream, set_stream, avcodec_find_encoder,
  avcodec_alloc_context3, get_sample_fmt, get_frame_size, av_get_channel_layout_nb_channels,
  avcodec_open2, avcodec_parameters_from_context,
}
use audio_server.Ffmpeg.Ledger.{
  Resource, format_context, codec_context, held, unchanged_held, acquired_held,
}
use audio_server.System.{Settings, get_bitrate, get_sample_rate}
use audio_server.Server.Output.{
  OutputMembers, no_output, codec_id, open_encoder, add_stream, add_codec, open_output_file,
}
use audio_server.Server.Output.Owned.{owned, Accounted, call_kept, open_resampler-Accounted}

module _ (resource : Resource) (answer : Library) (settings : Settings) (n : ℕ) where
  open_encoder-Accounted :
      (out_stream encoder : Pointer) (o : OutputMembers) (h : History)
      → is_set o.ofmt_ctx ≡ true
      → o.pb_open ≡ false
      → o.resample_context ≡ null
      → held resource h ≡ some (n + owned resource o)
      → Accounted resource n (open_encoder answer settings out_stream encoder o h)
  unfolding open_encoder call
  open_encoder-Accounted out_stream encoder o h there shut none_yet before =
      elim (Bool-cases (is_negative error)) [
        | inl e ↦ rw e tried_held
        | inr e ↦ rw e (elim (Bool-cases (is_set error')) [
          | inl e' ↦ rw e' copied_held
          | inr e' ↦ rw e' (
              open_resampler-Accounted resource answer settings n _ _ there shut none_yet
                (call_kept resource answer settings n _ o _ refl copied_held))
        ])
      ]
    where
      measured : History
      measured =
          (call answer (get_sample_fmt encoder)
            (call answer (av_get_channel_layout_nb_channels 3) h).1).1

      opening : Call
      opening = avcodec_open2 o.enc_ctx encoder (record {
        channels = answer h (av_get_channel_layout_nb_channels 3);
        sample_fmt =
            answer (call answer (av_get_channel_layout_nb_channels 3) h).1 (get_sample_fmt encoder);
        channel_layout = 3;
        sample_rate = get_sample_rate settings;
        bit_rate = get_bitrate settings;
        time_base = (pos 1, get_sample_rate settings);
        frame_size = 0;
      })

      error : ℤ
      error = answer measured opening

      sized : History
      sized = (call answer (get_frame_size o.enc_ctx) ((opening, error) ∷ measured)).1

      error' : ℤ
      error' = answer sized (avcodec_parameters_from_context out_stream o.enc_ctx)

      tried_held : held resource ((opening, error) ∷ measured) ≡ some (n + owned resource o)
      tried_held = call_kept resource answer settings n opening o measured refl (
          call_kept resource answer settings n _ o _ refl
            (call_kept resource answer settings n _ o h refl before))

      copied_held :
          held resource ((avcodec_parameters_from_context out_stream o.enc_ctx, error') ∷ sized)
          ≡ some (n + owned resource o)
      copied_held =
          call_kept resource answer settings n _ o sized refl
            (call_kept resource answer settings n _ o _ refl tried_held)

  add_stream-Accounted :
      (id : CodecId) (o : OutputMembers) (h : History)
      → is_set o.ofmt_ctx ≡ true
      → o.pb_open ≡ false
      → o.enc_ctx ≡ null
      → o.resample_context ≡ null
      → held resource h ≡ some (n + owned resource o)
      → Accounted resource n (add_stream answer settings id o h)
  unfolding add_stream call
  add_stream-Accounted id o h there shut no_encoder none_yet before =
      elim (Bool-cases (is_set out_stream)) [
        | inr e ↦ rw e streamed_held
        | inl e ↦ rw e (elim (Bool-cases (is_set encoder)) [
          | inr e' ↦ rw e' found_held
          | inl e' ↦ rw e' (elim (Bool-cases (is_set enc_ctx)) [
            | inr e'' ↦
                rw e'' (call_kept resource answer settings n alloc o found (rw e'' refl) found_held)
            | inl e'' ↦ rw e'' (
                open_encoder-Accounted out_stream encoder (record o { enc_ctx = enc_ctx })
                  ((alloc, enc_ctx) ∷ found) there shut none_yet
                  (acquired_held resource alloc enc_ctx found _ codec_context (rw e'' refl)
                      found_held
                    ∙ ap some (rw (no_encoder, e'') (omega arith))))
          ])
        ])
      ]
    where
      prepared : History
      prepared =
          (call answer (set_duration o.ofmt_ctx (2 ^ 63 - 1))
            (call answer (set_audio_codec_id o.ofmt_ctx id) h).1).1

      out_stream : Pointer
      out_stream = answer prepared (avformat_new_stream o.ofmt_ctx)

      streamed : History
      streamed = (avformat_new_stream o.ofmt_ctx, out_stream) ∷ prepared

      streamed_held : held resource streamed ≡ some (n + owned resource o)
      streamed_held = call_kept resource answer settings n _ o prepared refl (
          call_kept resource answer settings n _ o _ refl
            (call_kept resource answer settings n _ o h refl before))

      encoder : Pointer
      encoder =
          answer (call answer (set_stream out_stream 0 0) streamed).1 (avcodec_find_encoder id)

      found : History
      found =
          (avcodec_find_encoder id, encoder) ∷ (call answer (set_stream out_stream 0 0) streamed).1

      found_held : held resource found ≡ some (n + owned resource o)
      found_held =
          call_kept resource answer settings n _ o _ refl
            (call_kept resource answer settings n _ o streamed refl streamed_held)

      alloc : Call
      alloc = avcodec_alloc_context3 encoder

      enc_ctx : Pointer
      enc_ctx = answer found alloc

  add_codec-Accounted :
      (id : Option CodecId) (o : OutputMembers) (h : History)
      → is_set o.ofmt_ctx ≡ true
      → o.pb_open ≡ false
      → o.enc_ctx ≡ null
      → o.resample_context ≡ null
      → held resource h ≡ some (n + owned resource o)
      → Accounted resource n (add_codec answer settings id o h)
  unfolding add_codec
  add_codec-Accounted none o h there shut no_encoder none_yet before = before
  add_codec-Accounted (some id) o h there shut no_encoder none_yet before =
      add_stream-Accounted id o h there shut no_encoder none_yet before

-- Whatever the settings and the answers of libav are, when `open_output_file` returns to a server
-- whose members are as the constructor set them, on success and on every failure, what is held is
-- what was held before and exactly what the members point to.
pub open_output_file-Accounted :
    (resource : Resource) (answer : Library) (settings : Settings) (n : ℕ) (h : History)
    → held resource h ≡ some n
    → Accounted resource n (open_output_file answer settings no_output h)
unfolding open_output_file no_output call
open_output_file-Accounted resource answer settings n h before =
    elim (Bool-cases (is_set ofmt_ctx)) [
      | inr e ↦ rw e (
          unchanged_held resource creation ofmt_ctx h n (rw e refl) before
          ∙ ap some (rw e (omega arith)))
      | inl e ↦ rw e (
          add_codec-Accounted resource answer settings n (codec_id settings.codec_name)
            (record no_output { ofmt_ctx = ofmt_ctx }) ((creation, ofmt_ctx) ∷ h) e refl refl refl
            (acquired_held resource creation ofmt_ctx h n format_context (rw e refl) before
              ∙ ap some (rw e (omega arith))))
    ]
  where
    creation : Call
    creation = avformat_alloc_output_context2 "mpegts" settings.output_url

    ofmt_ctx : Pointer
    ofmt_ctx = answer h creation
