-- ===== src/Server/Events.antt =====
-- The events of the server with all its sessions: one thread calls the handlers, in any order.
use audio_server.Common.{ℕ, ◌≡◌, Bool, List, ◌∷◌}
use audio_server.Message.{CommonMessage}
use audio_server.Ffmpeg.{Library}
use audio_server.Session.{Session, Shared, Media, done}
use audio_server.Session.Events.{Step}
use audio_server.System.{Settings}
use audio_server.Server.Output.{media}
use audio_server.Server.{Server, close, handle_accept, main}

module _ (answer : Library) (packet_fuel frame_fuel : ℕ) where
  -- An event of one of the sessions.
  pub data SessionStep (given : Media) (old new : Shared)
      : List Session → List Session → Type 0 where
    here :
        (x y : Session) (rest : List Session)
        → Step answer given packet_fuel frame_fuel (x, old) (y, new)
        → SessionStep given old new (x ∷ rest) (y ∷ rest)
    there :
        (x : Session) (xs ys : List Session)
        → SessionStep given old new xs ys
        → SessionStep given old new (x ∷ xs) (x ∷ ys)

  pub data ServerStep : Server → Server → Type 0 where
    accepted :
        (s : Server) (session : Session) (rest : List Session) (info : CommonMessage) (error : Bool)
        → s.waiting ≡ session ∷ rest
        → ServerStep s (handle_accept info session error (record s { waiting = rest }))
    session_event :
        (s : Server) (ys : List Session) (new : Shared)
        → SessionStep (media s.output) s.shared new s.sessions ys
        → ServerStep s (record s { sessions = ys; shared = new })
    closed : (s : Server) → ServerStep s (close s)

  -- The states that the server can come to from a state.
  pub data ServerRun (s : Server) : Server → Type 0 where
    no_event : ServerRun s s
    one_more : {t u : Server} → ServerRun s t → ServerStep t u → ServerRun s u

  -- The states of the program after `main` has started the server.
  pub data ServerReach (settings : Settings) (info : CommonMessage) : Server → Type 0 where
    running : (s : Server) → main answer settings info ≡ done s → ServerReach settings info s
    next :
        {s t : Server} → ServerReach settings info s → ServerStep s t → ServerReach settings info t
