-- ===== src/Tests/Opened.antt =====
-- An output that was opened, and one whose file could not be opened.
use audio_server.Common.{◌≡◌, refl, Bool, true, some, []}
use audio_server.Ffmpeg.{
  Call, History, avcodec_parameters_from_context, call, init_resampler, av_codec_id_mp3,
}
use audio_server.Ffmpeg.Ledger.{held, fifo}
use audio_server.Session.{Outcome, done}
use audio_server.Server.Output.{
  OutputMembers, no_output, codec_id, open_output_file, add_codec, add_stream, open_encoder,
  open_resampler, add_program, open_file, write_header,
}
use audio_server.Server.Output.Owned.{Accounted}
use audio_server.Server.Output.Opening.{open_output_file-Accounted}
use audio_server.Ffmpeg.Order.{header_written}
use audio_server.Server.Output.Configured.{IsOpened}
use audio_server.Server.Output.Members.{open_output_file-IsOpened}
use audio_server.Server.Output.Success.{succeeds, Opens, open_output_file-Opens}
use audio_server.System.{default_settings}
use audio_server.Tests.Inputs.{succeeding, without_file}

open_output_file-Accounted_example :
    Accounted fifo 0 (open_output_file without_file default_settings no_output [])
unfolding held
open_output_file-Accounted_example =
    open_output_file-Accounted fifo without_file default_settings 0 [] refl

abbrev members : Outcome (Bool × OutputMembers) → OutputMembers
members (done (true, o)) = o
members _ = no_output

abbrev opened : OutputMembers
opened = members (open_output_file succeeding default_settings no_output []).0

opened_lem : (open_output_file succeeding default_settings no_output []).0 ≡ done (true, opened)
unfolding open_output_file no_output codec_id add_codec add_stream open_encoder open_resampler
    init_resampler add_program open_file write_header call
opened_lem = refl

open_output_file-IsOpened_example :
    IsOpened default_settings opened
    × (header_written (open_output_file succeeding default_settings no_output []).1 ≡ true)
open_output_file-IsOpened_example =
    open_output_file-IsOpened succeeding default_settings [] opened opened_lem

succeeding_lem : (h : History) (c : Call) → succeeds c (succeeding h c) ≡ true
succeeding_lem h (avcodec_parameters_from_context _ _) = refl
succeeding_lem h _ = refl

mp3_lem : codec_id default_settings.codec_name ≡ some av_codec_id_mp3
unfolding codec_id
mp3_lem = refl

open_output_file-Opens_example : Opens (open_output_file succeeding default_settings no_output []).0
open_output_file-Opens_example =
    open_output_file-Opens succeeding default_settings av_codec_id_mp3 [] succeeding_lem mp3_lem
