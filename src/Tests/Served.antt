-- ===== src/Tests/Served.antt =====
-- A server that has accepted a connection and read its first head, one that could not open its
-- file, and the settings of a file.
use audio_server.Common.{true, ◌≡◌, refl, false, some, none, [], ◌∷◌, arith}
use audio_server.Ffmpeg.{call, init_resampler}
use audio_server.Ffmpeg.Ledger.{held, fifo}
use audio_server.Session.{Outcome, done, new_session, start, start_operation}
use audio_server.Session.Events.{head_read}
use audio_server.Server.Output.{
  codec_id, open_output_file, add_codec, add_stream, open_encoder, open_resampler, add_program,
  open_file, write_header,
}
use audio_server.Server.{
  Server, server, start_accept, open_server, finish_open, ignore_result, main, handle_accept,
  destroy_server,
}
use audio_server.Server.Events.{here, accepted, session_event, ServerReach, running, next}
use audio_server.Server.Invariant.{ServerSound}
use audio_server.Server.Interleaved.{ServerReach-ServerSound}
use audio_server.Server.Stopping.{destroy_server-held, unopened-IsIdle, IsIdle}
use audio_server.System.{Tree, system, default_settings}
use audio_server.System.Override.{overridden, system-overridden}
use audio_server.Tests.Inputs.{fresh, succeeding, without_file}
use audio_server.Tests.Reached.{waiting, with_head, head_bytes, head_bytes-IsByte}

-- The server of a program.
abbrev in_program : Server → Outcome Server → Server
in_program otherwise (done s) = s
in_program otherwise _ = otherwise

abbrev pub listening : Server
listening = in_program (server 0) (main succeeding default_settings fresh)

abbrev connected : Server
connected = handle_accept fresh (new_session fresh) false (record listening { waiting = [] })

abbrev reading : Server
reading = record connected { sessions = with_head ∷ [] }

listening_lem : main succeeding default_settings fresh ≡ done listening
unfolding main open_server finish_open ignore_result server open_output_file codec_id add_codec
    add_stream open_encoder open_resampler init_resampler add_program open_file write_header call
listening_lem = refl

pub listening_reached : ServerReach succeeding 1 1 default_settings fresh listening
listening_reached = running listening listening_lem

pub listening-is_working : listening.is_working ≡ true
unfolding main open_server finish_open ignore_result server open_output_file codec_id add_codec
    add_stream open_encoder open_resampler init_resampler add_program open_file write_header call
    start_accept
listening-is_working = refl

reading_reached : ServerReach succeeding 1 1 default_settings fresh reading
unfolding main open_server finish_open ignore_result server open_output_file codec_id add_codec
    add_stream open_encoder open_resampler init_resampler add_program open_file write_header call
    start_accept handle_accept start new_session start_operation
reading_reached =
    next (next listening_reached (accepted listening (new_session fresh) [] fresh false refl)) (
      session_event connected (with_head ∷ []) connected.shared (
        here waiting with_head [] (
          head_read waiting connected.shared [] head_bytes false refl head_bytes-IsByte
            (omega arith))))

ServerReach-ServerSound_example : ServerSound default_settings reading
ServerReach-ServerSound_example =
    ServerReach-ServerSound succeeding default_settings 1 1 fresh reading reading_reached

destroy_server-held_example : held fifo (destroy_server succeeding reading) ≡ some 0
destroy_server-held_example =
    destroy_server-held succeeding default_settings 1 1 fresh reading fifo reading_reached

abbrev unopened : Server
unopened = in_program (server 0) (main without_file default_settings fresh)

unopened_lem : main without_file default_settings fresh ≡ done unopened
unfolding main open_server finish_open ignore_result server open_output_file codec_id add_codec
    add_stream open_encoder open_resampler init_resampler add_program open_file write_header call
unopened_lem = refl

unopened-is_working : unopened.is_working ≡ false
unfolding main open_server finish_open ignore_result server open_output_file codec_id add_codec
    add_stream open_encoder open_resampler init_resampler add_program open_file write_header call
unopened-is_working = refl

unopened-IsIdle_example : IsIdle unopened
unopened-IsIdle_example =
    unopened-IsIdle without_file default_settings 1 1 fresh unopened unopened unopened_lem
      unopened-is_working (running unopened unopened_lem)

-- A file without a bit rate.
abbrev no_bitrate : Tree
no_bitrate = record {
  get_short = λ key. some 8000;
  get_string = λ key. some "aac";
  get_int = λ key. none;
}

system-overridden_example :
    system (some no_bitrate) ≡ overridden (some 8000) (some "aac") (some "aac") none none none none
system-overridden_example = system-overridden no_bitrate
