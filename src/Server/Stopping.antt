-- ===== src/Server/Stopping.antt =====
-- The end of a server, and a server whose output was not opened.
use audio_server.Common.{ℕ, ◌≡◌, refl, subst, sym, ap, ◌∙◌, Bool, true, false, some, [], arith}
use audio_server.Message.{CommonMessage}
use audio_server.Ffmpeg.{Library, History}
use audio_server.Ffmpeg.Ledger.{Resource, held}
use audio_server.Session.{Outcome, done, undefined, out_of_fuel}
use audio_server.System.{Settings}
use audio_server.Server.Output.{OutputMembers}
use audio_server.Server.Output.Closing.{destroy_output-held}
use audio_server.Server.{
  Server, server, destroy_server, finish_open, ignore_result, start_accept, open_server, main,
  close,
}
use audio_server.Server.Events.{
  ServerStep, accepted, session_event, closed, ServerReach, running, next,
}
use audio_server.Server.Interleaved.{ServerReach-ServerSound}
use audio_server.Server.Invariant.{session_there}

-- In whatever state the server would be destroyed after `main` has started it, its destructor
-- releases everything that is still held of every resource that Ffmpeg/Ledger counts, and nothing
-- twice.
pub destroy_server-held :
    (answer : Library) (settings : Settings) (packet_fuel frame_fuel : ℕ) (info : CommonMessage)
    (s : Server) (resource : Resource)
    → ServerReach answer packet_fuel frame_fuel settings info s
    → held resource (destroy_server answer s) ≡ some 0
unfolding destroy_server
destroy_server-held answer settings packet_fuel frame_fuel info s resource reached =
    destroy_output-held resource answer s.output s.shared.history 0 (
      (ServerReach-ServerSound answer settings packet_fuel frame_fuel info s reached).balanced
        resource
      ∙ ap some (omega arith))

is_working : Outcome Server → Bool
is_working (done s) = s.is_working
is_working undefined = false
is_working out_of_fuel = false

-- No accept is pending and no session connected.
abbrev pub IsIdle : Server → Type 0
IsIdle s = (s.waiting ≡ []) × (s.sessions ≡ [])

abbrev WhenUnopened : Outcome Server → Type 0
WhenUnopened (done s) = s.is_working ≡ false → IsIdle s
WhenUnopened undefined = Unit
WhenUnopened out_of_fuel = Unit

finish_open-IsIdle :
    (info : CommonMessage) (port : ℕ) (result : Outcome (Bool × OutputMembers)) (history : History)
    → WhenUnopened (ignore_result (finish_open info (server port) result history))
unfolding ignore_result finish_open server start_accept
finish_open-IsIdle info port (done (true, o)) history = λ idle. absurd (cc)
finish_open-IsIdle info port (done (false, o)) history = λ idle. (refl, refl)
finish_open-IsIdle info port undefined history = tt
finish_open-IsIdle info port out_of_fuel history = tt

-- If the output could not be opened when `main` started the server, then whatever happens
-- afterwards no accept is ever pending and no session is ever connected.
pub unopened-IsIdle :
    (answer : Library) (settings : Settings) (packet_fuel frame_fuel : ℕ) (info : CommonMessage)
    (s t : Server)
    → main answer settings info ≡ done s
    → s.is_working ≡ false
    → ServerReach answer packet_fuel frame_fuel settings info t
    → IsIdle t
unfolding main open_server is_working close
unopened-IsIdle answer settings packet_fuel frame_fuel info s _ e unopened (running t e') =
    subst WhenUnopened e' (finish_open-IsIdle info settings.server_port _ _)
      (sym (ap is_working (sym e ∙ e')) ∙ unopened)
unopened-IsIdle answer settings packet_fuel frame_fuel info s _ e unopened
      (next {s = u} reached step) =
    stays u _ step
      (unopened-IsIdle answer settings packet_fuel frame_fuel info s u e unopened reached)
  where
    stays : (t u : Server) → ServerStep answer packet_fuel frame_fuel t u → IsIdle t → IsIdle u
    stays _ _ (accepted t session rest info' error waiting) (no_accept, no_session) = absurd (cc)
    stays _ _ (session_event t ys new event) (no_accept, no_session) =
        absurd (session_there answer packet_fuel frame_fuel _ _ _ _ _ event no_session)
    stays _ _ (closed t) idle = idle
