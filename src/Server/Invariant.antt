-- ===== src/Server/Invariant.antt =====
-- What holds of the server between any two events, and the part of it that an event of one session
-- keeps.
use audio_server.Common.{ℕ, ◌≤◌, ◌≡◌, ◌≢◌, Bool, ◌⊎◌, true, false, some, List, [], All, length}
use audio_server.Message.{CommonMessage}
use audio_server.Ffmpeg.{Library, History}
use audio_server.Ffmpeg.Ledger.{Resource, held}
use audio_server.Session.{Session, Shared, Media, new_session}
use audio_server.Session.Invariant.{IsSound}
use audio_server.Session.Reachable.{Step-IsSound}
use audio_server.Ffmpeg.Order.{Extends, header_written}
use audio_server.Session.Leaks.{Step-held, Step-Extends}
use audio_server.System.{Settings}
use audio_server.Server.Output.{OutputMembers}
use audio_server.Server.Output.Owned.{owned}
use audio_server.Server.Output.Configured.{IsOpened}
use audio_server.Server.{Server}
use audio_server.Server.Events.{SessionStep, here, there}

-- The accepts that are pending while the server works, or after it was closed.
abbrev pub AcceptsFit : Bool → List Session → Type 0
AcceptsFit true waiting = length waiting ≡ 1
AcceptsFit false waiting = length waiting ≤ 1

abbrev pub IsNew : Session → Type 0
IsNew session = (info : CommonMessage) × (session ≡ new_session info)

-- The output was opened as the settings say, and its header was written.
abbrev pub IsReady : Settings → OutputMembers → History → Type 0
IsReady settings o history = IsOpened settings o × (header_written history ≡ true)

pub record ServerSound (settings : Settings) (s : Server) : Type 0 where
  pub accepts : AcceptsFit s.is_working s.waiting
  pub fresh : All IsNew s.waiting
  pub sound : All IsSound s.sessions
  pub balanced :
      (resource : Resource) → held resource s.shared.history ≡ some (owned resource s.output)
  pub ready : ((s.waiting ≡ []) × (s.sessions ≡ [])) ⊎ IsReady settings s.output s.shared.history

module _ (answer : Library) (packet_fuel frame_fuel : ℕ) where
  pub SessionStep-IsSound :
      (given : Media) (held_by : Resource → ℕ) (old new : Shared) (xs ys : List Session)
      → All IsSound xs
      → ((resource : Resource) → held resource old.history ≡ some (held_by resource))
      → SessionStep answer packet_fuel frame_fuel given old new xs ys
      → All IsSound ys
        × ((resource : Resource) → held resource new.history ≡ some (held_by resource))
  SessionStep-IsSound given held_by old new _ _ sound balanced (here x y rest step) = (
    (Step-IsSound answer given packet_fuel frame_fuel (x, old) (y, new) sound.0 step, sound.1),
    λ resource.
        Step-held answer given packet_fuel frame_fuel resource (held_by resource) step
          (balanced resource),
  )
  SessionStep-IsSound given held_by old new _ _ sound balanced (there x xs ys step) =
      let (sound', balanced') =
        SessionStep-IsSound given held_by old new xs ys sound.1 balanced step in
      ((sound.0, sound'), balanced')

  pub SessionStep-Extends :
      (given : Media) (old new : Shared) (xs ys : List Session)
      → SessionStep answer packet_fuel frame_fuel given old new xs ys
      → Extends old.history new.history
  SessionStep-Extends given old new _ _ (here x y rest step) =
      Step-Extends answer given packet_fuel frame_fuel step
  SessionStep-Extends given old new _ _ (there x xs ys step) =
      SessionStep-Extends given old new xs ys step

  pub session_there :
      (given : Media) (old new : Shared) (xs ys : List Session)
      → SessionStep answer packet_fuel frame_fuel given old new xs ys
      → xs ≢ []
  session_there given old new _ _ (here x y rest step) none = absurd (cc)
  session_there given old new _ _ (there x xs ys step) none = absurd (cc)
