-- ===== src/Server/Output/Members.antt =====
-- What the members of the server are when `open_output_file` has returned true.
use audio_server.Common.{◌≡◌, refl, Bool-cases, inl, inr, true, Option, some, none, subst, ◌^◌, ◌-◌}
use audio_server.Common.Int.{ℤ, pos, is_set, is_negative, to_ℕ}
use audio_server.Ffmpeg.{
  Pointer, null, CodecId, CodecContext, History, Library, call, avformat_alloc_output_context2,
  avformat_new_stream, set_duration, set_audio_codec_id, set_stream,
  av_get_channel_layout_nb_channels, get_sample_fmt, get_frame_size, avcodec_find_encoder,
  avcodec_alloc_context3, avcodec_open2, avcodec_parameters_from_context,
}
use audio_server.Ffmpeg.Order.{header_written}
use audio_server.Session.{done}
use audio_server.System.{Settings, get_bitrate, get_sample_rate}
use audio_server.Server.Output.{
  OutputMembers, no_output, codec_id, open_encoder, add_stream, add_codec, open_output_file,
}
use audio_server.Server.Output.Configured.{
  IsConfigured, IsPrepared, IsOpened, WhenOpened, open_resampler-WhenOpened,
}

module _ (answer : Library) (settings : Settings) where
  open_encoder-WhenOpened :
      (out_stream encoder : Pointer) (o : OutputMembers) (h : History)
      → ((codec : CodecContext)
          → IsConfigured settings codec
          → IsPrepared settings (record o { codec = codec }))
      → WhenOpened settings (open_encoder answer settings out_stream encoder o h)
  unfolding open_encoder
  open_encoder-WhenOpened out_stream encoder o h ready = elim (Bool-cases (is_negative error.0)) [
    | inl e ↦ rw e tt
    | inr e ↦ rw e (elim (Bool-cases (is_set copied.0)) [
      | inl e' ↦ rw e' tt
      | inr e' ↦ rw e' (
          open_resampler-WhenOpened answer settings (record o { codec = sized }) _
            (ready sized (refl, refl, refl, refl)))
    ])
  ]
    where
      channels : ℤ × History
      channels = call answer (av_get_channel_layout_nb_channels 3) h

      sample_fmt : ℤ × History
      sample_fmt = call answer (get_sample_fmt encoder) channels.1

      codec : CodecContext
      codec = record {
        channels = channels.0;
        sample_fmt = sample_fmt.0;
        channel_layout = 3;
        sample_rate = get_sample_rate settings;
        bit_rate = get_bitrate settings;
        time_base = (pos 1, get_sample_rate settings);
        frame_size = 0;
      }

      error : ℤ × History
      error = call answer (avcodec_open2 o.enc_ctx encoder codec) sample_fmt.1

      frame_size : ℤ × History
      frame_size = call answer (get_frame_size o.enc_ctx) error.1

      sized : CodecContext
      sized = record codec { frame_size = to_ℕ frame_size.0 }

      copied : ℤ × History
      copied = call answer (avcodec_parameters_from_context out_stream o.enc_ctx) frame_size.1

  add_stream-WhenOpened :
      (id : CodecId) (o : OutputMembers) (h : History)
      → codec_id settings.codec_name ≡ some id
      → is_set o.ofmt_ctx ≡ true
      → o.audio_fifo ≡ null
      → WhenOpened settings (add_stream answer settings id o h)
  unfolding add_stream
  add_stream-WhenOpened id o h known there no_fifo = elim (Bool-cases (is_set out_stream.0)) [
    | inr e ↦ rw e tt
    | inl e ↦ rw e (elim (Bool-cases (is_set encoder.0)) [
      | inr e' ↦ rw e' tt
      | inl e' ↦ rw e' (elim (Bool-cases (is_set enc_ctx.0)) [
        | inr e'' ↦ rw e'' tt
        | inl e'' ↦ rw e'' (
            open_encoder-WhenOpened out_stream.0 encoder.0 (record o { enc_ctx = enc_ctx.0 })
              enc_ctx.1 (λ codec configured. ((id, known), there, e'', configured, no_fifo)))
      ])
    ])
  ]
    where
      out_stream : Pointer × History
      out_stream =
          call answer (avformat_new_stream o.ofmt_ctx)
            (call answer (set_duration o.ofmt_ctx (2 ^ 63 - 1))
              (call answer (set_audio_codec_id o.ofmt_ctx id) h).1).1

      encoder : Pointer × History
      encoder =
          call answer (avcodec_find_encoder id)
            (call answer (set_stream out_stream.0 0 0) out_stream.1).1

      enc_ctx : Pointer × History
      enc_ctx = call answer (avcodec_alloc_context3 encoder.0) encoder.1

  add_codec-WhenOpened :
      (id : Option CodecId) (o : OutputMembers) (h : History)
      → codec_id settings.codec_name ≡ id
      → is_set o.ofmt_ctx ≡ true
      → o.audio_fifo ≡ null
      → WhenOpened settings (add_codec answer settings id o h)
  unfolding add_codec
  add_codec-WhenOpened none o h known there no_fifo = tt
  add_codec-WhenOpened (some id) o h known there no_fifo =
      add_stream-WhenOpened id o h known there no_fifo

  pub open_output_file-WhenOpened :
      (h : History) → WhenOpened settings (open_output_file answer settings no_output h)
  unfolding open_output_file no_output
  open_output_file-WhenOpened h = elim (Bool-cases (is_set created.0)) [
    | inr e ↦ rw e tt
    | inl e ↦ rw e (
        add_codec-WhenOpened (codec_id settings.codec_name)
          (record no_output { ofmt_ctx = created.0 }) created.1 refl e refl)
  ]
    where
      created : Pointer × History
      created = call answer (avformat_alloc_output_context2 "mpegts" settings.output_url) h

-- When `open_output_file` of a server that was just constructed returns true, the settings name the
-- codec aac or mp3, the server has a format context, an encoder and a resampler, the encoder was
-- given the layout of two channels and the rate and the bit rate of the settings, and the header of
-- the output was written. The server has no FIFO.
pub open_output_file-IsOpened :
    (answer : Library) (settings : Settings) (h : History) (o : OutputMembers)
    → (open_output_file answer settings no_output h).0 ≡ done (true, o)
    → IsOpened settings o × (header_written (open_output_file answer settings no_output h).1 ≡ true)
open_output_file-IsOpened answer settings h o e =
    subst (λ r. WhenOpened settings (r, (open_output_file answer settings no_output h).1)) e
      (open_output_file-WhenOpened answer settings h)
