-- ===== src/Server/Output.antt =====
-- The output of the class Server: `open_output_file` and the destructor, over libav as it is
-- called.
pub mod Owned
pub mod Opening
pub mod Closing
pub mod Configured
pub mod Members
pub mod Success
use Prim.Native.String.{String}
use text.Mathlib.Text.{◌==◌}
use audio_server.Common.{
  ℕ, zero, suc, ◌+◌, ◌-◌, ◌^◌, ◌%◌, Bool, true, false, Option, none, some, [], ◌∷◌, if◌then◌else◌,
}
use audio_server.Common.Int.{ℤ, pos, negsuc, is_set, is_negative, is_odd, to_ℕ}
use audio_server.Ffmpeg.{
  Pointer, null, success, CodecContext, CodecId, av_codec_id_aac, av_codec_id_mp3, Program, Call,
  Library, M, ◌>>=◌, ◌>>◌, return, call, init_resampler, avformat_alloc_output_context2,
  set_audio_codec_id, set_duration, avformat_new_stream, set_stream, set_stream_time_base,
  avcodec_find_encoder, avcodec_alloc_context3, get_sample_fmt, get_frame_size, get_flags,
  av_get_channel_layout_nb_channels, avcodec_open2, avcodec_parameters_from_context, av_new_program,
  set_program, av_dict_set, avio_open, avformat_write_header, avcodec_free_context,
  avformat_free_context, avio_closep, av_audio_fifo_free, swr_free,
}
use audio_server.Session.{Outcome, done, undefined, Media}
use audio_server.System.{Settings, get_bitrate, get_sample_rate}

-- The members of the server that libav has allocated; `pb_open` says that `ofmt_ctx_->pb` is not
-- null, and `codec` has the members of `*enc_ctx_`.
pub record OutputMembers : Type 0 where
  pub ofmt_ctx : Pointer
  pub pb_open : Bool
  pub enc_ctx : Pointer
  pub codec : CodecContext
  pub resample_context : Pointer
  pub audio_fifo : Pointer

-- A context as `avcodec_alloc_context3` makes it.
abbrev pub no_codec : CodecContext
no_codec = record {
  channels = pos 0;
  sample_fmt = pos 0;
  channel_layout = 0;
  sample_rate = pos 0;
  bit_rate = pos 0;
  time_base = (pos 0, pos 1);
  frame_size = 0;
}

-- The members as the constructor sets them.
unfoldable pub no_output : OutputMembers
no_output = record {
  ofmt_ctx = null;
  pb_open = false;
  enc_ctx = null;
  codec = no_codec;
  resample_context = null;
  audio_fifo = null;
}

-- What `start_accept` gives to a session.
abbrev pub media : OutputMembers → Media
media o = record {
  enc_ctx = o.codec;
  resample_context = o.resample_context;
  audio_fifo = o.audio_fifo;
}

abbrev pub av_ch_layout_stereo : ℕ
av_ch_layout_stereo = 3

abbrev av_sample_fmt_s16 : ℤ
av_sample_fmt_s16 = pos 1

-- AVDISCARD_NONE.
abbrev avdiscard_none : ℤ
avdiscard_none = negsuc 15

abbrev avio_flag_write : ℕ
avio_flag_write = 2

abbrev int64_max : ℕ
int64_max = 2 ^ 63 - 1

unfoldable pub codec_id : String → Option CodecId
codec_id name =
    if name == "aac"
    then some av_codec_id_aac
    else if name == "mp3"
    then some av_codec_id_mp3
    else none

-- `return false`, with the members as they are.
abbrev give_up : OutputMembers → M (Outcome (Bool × OutputMembers))
give_up o = return (done (false, o))

-- The program that the code describes.
abbrev channel_one : Program
channel_one = record {
  discard = avdiscard_none;
  flags = 0;
  program_num = 1;
  stream_index = 0 ∷ [];
  start_time = 0;
  end_time = 0;
}

-- `flags & AVFMT_NOFILE`.
abbrev pub has_no_file : ℤ → Bool
has_no_file flags = is_odd flags

-- The body of `open_output_file`, each part with the code that follows it. A part that fails
-- returns from the function.
module _ (answer : Library) (settings : Settings) where
  unfoldable pub write_header : OutputMembers → M (Outcome (Bool × OutputMembers))
  write_header o = do
    ret ← call answer (avformat_write_header o.ofmt_ctx)
    if is_negative ret then give_up o else return (done (true, o))

  unfoldable pub open_file : OutputMembers → M (Outcome (Bool × OutputMembers))
  open_file o = do
    flags ← call answer (get_flags o.ofmt_ctx)
    if has_no_file flags then write_header o else (do
      ret ← call answer (avio_open o.ofmt_ctx settings.output_url avio_flag_write)
      if is_negative ret then give_up o else write_header (record o { pb_open = true }))

  -- The result of `av_new_program` is not tested.
  unfoldable pub add_program : OutputMembers → M (Outcome (Bool × OutputMembers))
  add_program o = do
    program ← call answer (av_new_program o.ofmt_ctx 1)
    if is_set program
        then (do
          call answer (set_program program channel_one)
          call answer (av_dict_set program "service_name" "channel one")
          call answer (av_dict_set program "service_provider" "telecast")
          open_file o)
        else return undefined

  unfoldable pub open_resampler : OutputMembers → M (Outcome (Bool × OutputMembers))
  open_resampler o = do
    resampler ←
        init_resampler answer o.codec.sample_fmt av_sample_fmt_s16 o.codec.channel_layout
          o.codec.sample_rate
    let opened : OutputMembers = record o { resample_context = resampler.1 }
    if is_set resampler.0 then give_up opened else add_program opened

  -- `avcodec_open2` also sets the size of a frame.
  unfoldable pub open_encoder :
      Pointer → Pointer → OutputMembers → M (Outcome (Bool × OutputMembers))
  open_encoder out_stream encoder o = do
    channels ← call answer (av_get_channel_layout_nb_channels av_ch_layout_stereo)
    sample_fmt ← call answer (get_sample_fmt encoder)
    let codec : CodecContext = record {
      channels = channels;
      sample_fmt = sample_fmt;
      channel_layout = av_ch_layout_stereo;
      sample_rate = get_sample_rate settings;
      bit_rate = get_bitrate settings;
      time_base = (pos 1, get_sample_rate settings);
      frame_size = 0;
    }
    error ← call answer (avcodec_open2 o.enc_ctx encoder codec)
    if is_negative error then give_up (record o { codec = codec }) else (do
      frame_size ← call answer (get_frame_size o.enc_ctx)
      let opened : OutputMembers = record o {
        codec = record codec { frame_size = to_ℕ frame_size };
      }
      error' ← call answer (avcodec_parameters_from_context out_stream o.enc_ctx)
      if is_set error' then give_up opened else (do
        call answer (set_stream_time_base out_stream codec.time_base)
        open_resampler opened))

  unfoldable pub add_stream : CodecId → OutputMembers → M (Outcome (Bool × OutputMembers))
  add_stream id o = do
    call answer (set_audio_codec_id o.ofmt_ctx id)
    call answer (set_duration o.ofmt_ctx int64_max)
    out_stream ← call answer (avformat_new_stream o.ofmt_ctx)
    if is_set out_stream
        then (do
          call answer (set_stream out_stream 0 0)
          encoder ← call answer (avcodec_find_encoder id)
          if is_set encoder
              then (do
                enc_ctx ← call answer (avcodec_alloc_context3 encoder)
                if is_set enc_ctx
                    then open_encoder out_stream encoder (record o { enc_ctx = enc_ctx })
                    else give_up o)
              else give_up o)
        else give_up o

  -- The name of the codec is none of the two.
  unfoldable pub add_codec : Option CodecId → OutputMembers → M (Outcome (Bool × OutputMembers))
  add_codec none o = give_up o
  add_codec (some id) o = add_stream id o

  -- The result is what the function returns, with the members. What `ofmt_ctx_` pointed to is lost;
  -- the program calls the function once, with the members as the constructor set them.
  unfoldable pub open_output_file : OutputMembers → M (Outcome (Bool × OutputMembers))
  open_output_file o = do
    ofmt_ctx ← call answer (avformat_alloc_output_context2 "mpegts" settings.output_url)
    let created : OutputMembers = record o { ofmt_ctx = ofmt_ctx; pb_open = false }
    if is_set ofmt_ctx then add_codec (codec_id settings.codec_name) created else give_up created

module _ (answer : Library) where
  -- `Server::~Server()`.
  unfoldable pub destroy_output : OutputMembers → M ℤ
  destroy_output o = do
    if is_set o.audio_fifo then call answer (av_audio_fifo_free o.audio_fifo) else return success
    call answer (swr_free o.resample_context)
    if is_set o.enc_ctx then call answer (avcodec_free_context o.enc_ctx) else return success
    if is_set o.ofmt_ctx
        then (do
          call answer (avio_closep o.pb_open)
          call answer (avformat_free_context o.ofmt_ctx))
        else return success
