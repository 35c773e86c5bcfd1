-- ===== src/Ffmpeg.antt =====
-- ffmpeg_utils.h and ffmpeg_utils.cpp, over the library that they call. The library is a
-- parameter: `answer` gives the result of each call, from the calls before it. What a call does
-- is seen in the list of calls alone. The size of a FIFO and the
-- sizes of samples and frames are never negative.
pub mod Contract
pub mod Ledger
pub mod Release
pub mod Order
use Prim.Native.String.{String}
use audio_server.Common.{ℕ, ◌+◌, Bool, true, false, List, ◌∷◌, if◌then◌else◌}
use audio_server.Common.Int.{ℤ, pos, negsuc, is_negative, is_set, less_than, to_ℕ}

-- A pointer, null is 0.
abbrev pub Pointer : Type 0
Pointer = ℤ

-- What the code sets in `AVCodecContext` and reads there; `time_base` is a numerator and a
-- denominator.
pub record CodecContext : Type 0 where
  pub channels : ℤ
  pub sample_fmt : ℤ
  pub channel_layout : ℕ
  pub sample_rate : ℤ
  pub bit_rate : ℤ
  pub time_base : ℤ × ℤ
  pub frame_size : ℕ

pub data CodecId : Type 0 where
  av_codec_id_aac av_codec_id_mp3 : CodecId

-- What the code sets in `AVProgram`.
pub record Program : Type 0 where
  pub discard : ℤ
  pub flags : ℕ
  pub program_num : ℕ
  pub stream_index : List ℕ
  pub start_time : ℕ
  pub end_time : ℕ

-- The calls of libav and of the C library, with the arguments that the code computes. The
-- assignments to members that only libav reads are listed with the calls, as `set_…`, and so are
-- the members that the library fills in and the code reads, as `get_…`.
pub data Call : Type 0 where
  av_init_packet av_frame_alloc av_frame_get_buffer av_frame_free : Call
  av_audio_fifo_alloc : ℤ → ℤ → ℕ → Call
  swr_alloc_set_opts : ℤ → ℤ → ℕ → ℤ → Call
  swr_init swr_free : Pointer → Call
  calloc : ℤ → Call
  av_samples_alloc : ℤ → ℕ → ℤ → Call
  av_freep : Bool → Call
  free : Call
  swr_convert : Pointer → ℕ → Call
  av_audio_fifo_size av_audio_fifo_free : Pointer → Call
  av_audio_fifo_realloc av_audio_fifo_write av_audio_fifo_read : Pointer → ℕ → Call
  avcodec_send_frame : ℕ → ℕ → Call
  avcodec_receive_packet av_packet_rescale_ts av_interleaved_write_frame av_packet_unref : Call
  avformat_alloc_output_context2 : String → String → Call
  set_audio_codec_id : Pointer → CodecId → Call
  set_duration : Pointer → ℕ → Call
  avformat_new_stream : Pointer → Call
  set_stream : Pointer → ℕ → ℕ → Call
  set_stream_time_base : Pointer → ℤ × ℤ → Call
  avcodec_find_encoder : CodecId → Call
  avcodec_alloc_context3 get_sample_fmt get_frame_size get_flags : Pointer → Call
  av_get_channel_layout_nb_channels : ℕ → Call
  avcodec_open2 : Pointer → Pointer → CodecContext → Call
  avcodec_parameters_from_context : Pointer → Pointer → Call
  av_new_program : Pointer → ℕ → Call
  set_program : Pointer → Program → Call
  av_dict_set : Pointer → String → String → Call
  avio_open : Pointer → String → ℕ → Call
  avformat_write_header avcodec_free_context avformat_free_context : Pointer → Call
  avio_closep : Bool → Call

-- The calls so far with their results, the last one first.
abbrev pub History : Type 0
History = List (Call × ℤ)

abbrev pub Library : Type 0
Library = History → Call → ℤ

abbrev pub M : Type 0 → Type 0
M A = History → A × History

infixl 5 ◌>>=◌ ◌>>◌
abbrev pub ◌>>=◌ : {A B : Type 0} → M A → (A → M B) → M B
◌>>=◌ m f h = f (m h).0 (m h).1

abbrev pub ◌>>◌ : {A B : Type 0} → M A → M B → M B
◌>>◌ m k h = k (m h).1

abbrev pub return : {A : Type 0} → A → M A
return a h = (a, h)

-- `undefined` is a read outside an array or through a pointer that points to nothing, or an
-- `int64_t` that overflows; `out_of_fuel` is no behaviour of the program.
pub data Outcome (A : Type 0) : Type 0 where
  done : A → Outcome A
  undefined out_of_fuel : Outcome A

-- The rest of a function, behind a part that may not come to its end.
abbrev pub when_done : {A B : Type 0} → (A → M (Outcome B)) → Outcome A → M (Outcome B)
when_done rest (done a) = rest a
when_done rest undefined = return undefined
when_done rest out_of_fuel = return out_of_fuel

-- What `input_data` of `convert_samples` is: an array of pointers to the samples of each channel,
-- or an array of samples that was cast to that type.
pub data Input : Type 0 where
  pointer_array sample_array : Input

-- AVERROR(ENOMEM) and AVERROR_EXIT.
abbrev pub averror_enomem : ℤ
averror_enomem = negsuc 11

abbrev pub averror_exit : ℤ
averror_exit = negsuc 1414092868

abbrev pub null : Pointer
null = pos 0

abbrev pub success : ℤ
success = pos 0

pub record Packet : Type 0 where
  pub payload : ℕ
  pub size : ℕ

pub record Frame : Type 0 where
  pub nb_samples : ℕ
  pub layout : ℕ
  pub format : ℤ
  pub rate : ℤ

-- The error of `init_output_frame`, or the frame that `*frame` points to.
pub data FrameResult : Type 0 where
  failed : ℤ → FrameResult
  made : Frame → FrameResult

module _ (answer : Library) where
  unfoldable pub call : Call → M ℤ
  call c h = (answer h c, (c, answer h c) ∷ h)

  unfoldable pub init_packet : M Packet
  init_packet = do call av_init_packet; return (record { payload = 0; size = 0 })

  unfoldable pub init_input_frame : M ℤ
  init_input_frame = do
    frame ← call av_frame_alloc
    if is_set frame then return success else return averror_enomem

  -- The error, and the FIFO that `*fifo` points to.
  unfoldable pub init_fifo : ℤ → ℤ → M (ℤ × Pointer)
  init_fifo fmt channels = do
    fifo ← call (av_audio_fifo_alloc fmt channels 1)
    if is_set fifo then return (success, fifo) else return (averror_enomem, fifo)

  -- The error, and what `*resample_context` is then: `swr_free` makes it null.
  unfoldable pub init_resampler : ℤ → ℤ → ℕ → ℤ → M (ℤ × Pointer)
  init_resampler out_sample_fmt in_sample_fmt ch_layout sample_rate = do
    context ← call (swr_alloc_set_opts out_sample_fmt in_sample_fmt ch_layout sample_rate)
    if is_set context
        then (do
          error ← call (swr_init context)
          if is_negative error
              then (do call (swr_free context); return (error, null))
              else return (success, context))
        else return (averror_enomem, context)

  -- `calloc` has made the first pointer null, which it still is if `av_samples_alloc` fails: then
  -- `av_freep` does nothing. Its argument is whether the pointer is set.
  unfoldable pub init_converted_samples : CodecContext → ℕ → M ℤ
  init_converted_samples context frame_size = do
    pointers ← call (calloc context.channels)
    if is_set pointers
        then (do
          error ← call (av_samples_alloc context.channels frame_size context.sample_fmt)
          if is_negative error
              then (do call (av_freep false); call free; return error)
              else return success)
        else return averror_enomem

  -- `swr_convert` reads an array of samples as addresses, however many samples are to be converted.
  unfoldable pub convert_samples : Input → ℕ → Pointer → M (Outcome ℤ)
  convert_samples sample_array frame_size resample_context = return undefined
  convert_samples pointer_array frame_size resample_context = do
    error ← call (swr_convert resample_context frame_size)
    if is_negative error then return (done error) else return (done success)

  -- libav reads the FIFO through its pointer.
  unfoldable pub add_samples_to_fifo : Pointer → ℕ → M (Outcome ℤ)
  add_samples_to_fifo fifo frame_size =
      if is_set fifo
      then (do
        size ← call (av_audio_fifo_size fifo)
        error ← call (av_audio_fifo_realloc fifo (to_ℕ size + frame_size))
        if is_negative error then return (done error) else (do
          written ← call (av_audio_fifo_write fifo frame_size)
          if less_than written frame_size
              then return (done averror_exit)
              else return (done success)))
      else return undefined

  unfoldable pub init_output_frame : CodecContext → ℕ → M FrameResult
  init_output_frame context frame_size = do
    frame ← call av_frame_alloc
    if is_set frame
        then (do
          error ← call av_frame_get_buffer
          if is_negative error
              then (do call av_frame_free; return (failed error))
              else return (
                  made (record {
                    nb_samples = frame_size;
                    layout = context.channel_layout;
                    format = context.sample_fmt;
                    rate = context.sample_rate;
                  })))
        else return (failed averror_exit)

  -- The array that `init_converted_samples` has made, and its first pointer, are not null.
  unfoldable pub free_converted_samples : M ℤ
  free_converted_samples = do call (av_freep true); call free
