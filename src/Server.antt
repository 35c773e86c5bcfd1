-- ===== src/Server.antt =====
-- The class Server of Server.h and Server.cpp, and AudioServer.cpp: the server opens its output and
-- accepts connections, and each one is a session. The session that waits for a connection is held
-- by its `async_accept`. A session is given the members that the server has when it is constructed;
-- they do not change once the output is open.
pub mod Output
pub mod Events
pub mod Invariant
pub mod Interleaved
pub mod Stopping
pub mod Clients
use audio_server.Common.{ℕ, Bool, true, false, List, [], ◌∷◌, ◌++◌, if◌then◌else◌}
use audio_server.Common.Int.{ℤ, pos, negsuc}
use audio_server.Message.{CommonMessage}
use audio_server.Ffmpeg.{History, Library}
use audio_server.Session.{
  Session, Shared, Outcome, done, undefined, out_of_fuel, new_session, start,
}
use audio_server.System.{Settings}
use audio_server.Server.Output.{OutputMembers, no_output, open_output_file, destroy_output}

-- `port` is the endpoint of the acceptor.
pub record Server : Type 0 where
  pub is_working : Bool
  pub port : ℕ
  pub acceptor_open : Bool
  pub waiting : List Session
  pub sessions : List Session
  pub shared : Shared
  pub output : OutputMembers

-- The constructor: the acceptor listens at once.
unfoldable pub server : ℕ → Server
server port = record {
  is_working = false;
  port = port;
  acceptor_open = true;
  waiting = [];
  sessions = [];
  shared = record { history = []; pts = 0 };
  output = no_output;
}

-- The destructor, with the calls of libav then.
unfoldable pub destroy_server : Library → Server → History
destroy_server answer s = (destroy_output answer s.output s.shared.history).1

-- `info` is the storage of the new session's message.
unfoldable pub start_accept : CommonMessage → Server → Server
start_accept info s = record s { waiting = s.waiting ++ new_session info ∷ [] }

-- The part of `open` behind `open_output_file`, with the return code.
unfoldable pub finish_open :
    CommonMessage → Server → Outcome (Bool × OutputMembers) → History → Outcome (ℤ × Server)
finish_open info s (done (opened, o)) history =
    let left : Server = record s { output = o; shared = record s.shared { history = history } } in
    done (
      if opened
      then (pos 0, start_accept info (record left { is_working = true }))
      else (negsuc 0, left))
finish_open info s undefined history = undefined
finish_open info s out_of_fuel history = out_of_fuel

unfoldable pub open_server : Library → Settings → CommonMessage → Server → Outcome (ℤ × Server)
open_server answer settings info s =
    let r = open_output_file answer settings s.output s.shared.history in finish_open info s r.0 r.1

unfoldable pub close : Server → Server
close s = record s { is_working = false; acceptor_open = false }

-- `error` is the accept's result.
unfoldable pub handle_accept : CommonMessage → Session → Bool → Server → Server
handle_accept info session error s =
    let accepted : Server =
      if error then s else record s { sessions = start session ∷ s.sessions } in
    if accepted.is_working then start_accept info accepted else accepted

-- `main` up to its loop, which never ends: the server whose handlers the thread of the io_service
-- calls from then on. The result of `open` is not looked at.
unfoldable pub ignore_result : Outcome (ℤ × Server) → Outcome Server
ignore_result (done (result, s)) = done s
ignore_result undefined = undefined
ignore_result out_of_fuel = out_of_fuel

unfoldable pub main : Library → Settings → CommonMessage → Outcome Server
main answer settings info =
    ignore_result (open_server answer settings info (server settings.server_port))
