-- ===== src/Server/Interleaved.antt =====
-- The invariant of the server over its handlers and over the events.
use audio_server.Common.{
  ℕ, ◌≡◌, refl, subst, ap, ◌∙◌, Bool, Bool-cases, inl, inr, true, false, some, List, [], ◌∷◌, All,
  arith, if◌then◌else◌,
}
use audio_server.Message.{CommonMessage}
use audio_server.Ffmpeg.{Library, History}
use audio_server.Ffmpeg.Ledger.{Resource, held}
use audio_server.Session.{Session, Outcome, done, undefined, out_of_fuel, new_session, start}
use audio_server.Session.Events.{started}
use audio_server.Session.Invariant.{IsSound}
use audio_server.Session.Reachable.{Reach-IsSound}
use audio_server.Ffmpeg.Order.{header_written-Extends}
use audio_server.System.{Settings}
use audio_server.Server.Output.{OutputMembers, no_output, media, open_output_file}
use audio_server.Server.Output.Owned.{owned, Accounted}
use audio_server.Server.Output.Opening.{open_output_file-Accounted}
use audio_server.Server.Output.Configured.{WhenOpened}
use audio_server.Server.Output.Members.{open_output_file-WhenOpened}
use audio_server.Server.{
  Server, server, start_accept, open_server, finish_open, ignore_result, main, close, handle_accept,
}
use audio_server.Server.Events.{
  ServerStep, accepted, session_event, closed, ServerReach, running, next,
}
use audio_server.Server.Invariant.{
  AcceptsFit, IsNew, IsReady, ServerSound, SessionStep-IsSound, SessionStep-Extends, session_there,
}

module _ (answer : Library) (settings : Settings) (packet_fuel frame_fuel : ℕ) where
  last_waiting :
      (working : Bool) (session : Session) (rest : List Session)
      → AcceptsFit working (session ∷ rest)
      → rest ≡ []
  last_waiting working session [] fits = refl
  last_waiting true session (_ ∷ _) fits = absurd (omega (arith, fits))
  last_waiting false session (_ ∷ _) fits = absurd (omega (arith, fits))

  at_most_one :
      (working : Bool) (waiting : List Session)
      → AcceptsFit working waiting
      → AcceptsFit false waiting
  at_most_one true waiting fits = omega (arith, fits)
  at_most_one false waiting fits = fits

  -- Behind an accept, the next one is started if the server works.
  accept_again :
      (info : CommonMessage) (s : Server)
      → s.waiting ≡ []
      → All IsSound s.sessions
      → ((resource : Resource) → held resource s.shared.history ≡ some (owned resource s.output))
      → IsReady settings s.output s.shared.history
      → ServerSound settings (if s.is_working then start_accept info s else s)
  unfolding start_accept
  accept_again info s none_waiting sound balanced ready = elim (Bool-cases s.is_working) [
    | inl e ↦ rw e (record {
      accepts = rw none_waiting refl;
      fresh = rw none_waiting ((info, refl), tt);
      sound = sound;
      balanced = balanced;
      ready = inr ready;
    })
    | inr e ↦ rw e (record {
      accepts = rw none_waiting (omega arith);
      fresh = rw none_waiting tt;
      sound = sound;
      balanced = balanced;
      ready = inr ready;
    })
  ]

  -- Who has a session has opened the output.
  session_output :
      (s : Server) (session : Session) (rest : List Session)
      → s.waiting ≡ session ∷ rest
      → ServerSound settings s
      → IsReady settings s.output s.shared.history
  session_output s session rest e sound = elim sound.ready [
    | inl (none_waiting, _) ↦ absurd (cc)
    | inr ready ↦ ready
  ]

  handle_accept-ServerSound :
      (s : Server) (session : Session) (rest : List Session) (info : CommonMessage) (error : Bool)
      → s.waiting ≡ session ∷ rest
      → ServerSound settings s
      → ServerSound settings (handle_accept info session error (record s { waiting = rest }))
  unfolding handle_accept
  handle_accept-ServerSound s session rest info true e sound =
      accept_again info (record s { waiting = rest })
        (last_waiting s.is_working session rest (subst (AcceptsFit s.is_working) e sound.accepts))
        sound.sound sound.balanced (session_output s session rest e sound)
  handle_accept-ServerSound s session rest info false e sound =
      let (first, as_new) = (subst (All IsNew) e sound.fresh).0 in
      accept_again info (record s { waiting = rest; sessions = start session ∷ s.sessions })
        (last_waiting s.is_working session rest (subst (AcceptsFit s.is_working) e sound.accepts))
        (rw as_new (
          Reach-IsSound answer (media s.output) packet_fuel frame_fuel first s.shared
              (start (new_session first), s.shared) started,
          sound.sound,
        ))
        sound.balanced (session_output s session rest e sound)

  abbrev WhenRunning : Outcome Server → Type 0
  WhenRunning (done s) = ServerSound settings s
  WhenRunning undefined = Unit
  WhenRunning out_of_fuel = Unit

  finish_open-ServerSound :
      (info : CommonMessage) (port : ℕ) (result : Outcome (Bool × OutputMembers))
      (history : History)
      → ((resource : Resource) → Accounted resource 0 (result, history))
      → WhenOpened settings (result, history)
      → WhenRunning (ignore_result (finish_open info (server port) result history))
  unfolding finish_open ignore_result start_accept server
  finish_open-ServerSound info port (done (true, o)) history accounted ready = record {
    accepts = refl;
    fresh = ((info, refl), tt);
    sound = tt;
    balanced = λ resource. accounted resource ∙ ap some (omega arith);
    ready = inr ready;
  }
  finish_open-ServerSound info port (done (false, o)) history accounted ready = record {
    accepts = omega arith;
    fresh = tt;
    sound = tt;
    balanced = λ resource. accounted resource ∙ ap some (omega arith);
    ready = inl (refl, refl);
  }
  finish_open-ServerSound info port undefined history accounted ready = tt
  finish_open-ServerSound info port out_of_fuel history accounted ready = tt

  main-ServerSound : (info : CommonMessage) → WhenRunning (main answer settings info)
  unfolding main open_server server held
  main-ServerSound info =
      let r = open_output_file answer settings no_output [] in
      finish_open-ServerSound info settings.server_port r.0 r.1
        (λ resource. open_output_file-Accounted resource answer settings 0 [] refl)
        (open_output_file-WhenOpened answer settings [])

  -- Whatever the settings are, whatever libav answers, and however connections, messages and a call
  -- of `close` follow each other after `main` has started the server: while it works exactly one
  -- accept is pending, and otherwise at most one; a session that waits for a connection is new;
  -- every session that is connected has at most one operation pending, of the kinds that a single
  -- session has; of every resource that Ffmpeg/Ledger counts as many are held as the members point
  -- to, so none is leaked by a session or released twice; and where there is a session, or an
  -- accept for one, the output was opened as the settings say and its header was written before.
  pub ServerReach-ServerSound :
      (info : CommonMessage) (s : Server)
      → ServerReach answer packet_fuel frame_fuel settings info s
      → ServerSound settings s
  unfolding close
  ServerReach-ServerSound info s (running _ e) = subst WhenRunning e (main-ServerSound info)
  ServerReach-ServerSound info _ (next {s} reached step) =
      after s _ step (ServerReach-ServerSound info s reached)
    where
      after :
          (s t : Server)
          → ServerStep answer packet_fuel frame_fuel s t
          → ServerSound settings s
          → ServerSound settings t
      after _ _ (accepted s session rest info' error e) sound =
          handle_accept-ServerSound s session rest info' error e sound
      after _ _ (session_event s ys new step) sound =
          let (all, balanced) =
            SessionStep-IsSound answer packet_fuel frame_fuel (media s.output)
              (λ resource. owned resource s.output) s.shared new s.sessions ys sound.sound
              sound.balanced step in
          record {
            accepts = sound.accepts;
            fresh = sound.fresh;
            sound = all;
            balanced = balanced;
            ready = elim sound.ready [
              | inl (_, none) ↦
                  absurd (session_there answer packet_fuel frame_fuel _ _ _ _ _ step none)
              | inr (ready, header) ↦ inr (
                ready,
                header_written-Extends s.shared.history new.history
                    (SessionStep-Extends answer packet_fuel frame_fuel _ _ _ _ _ step) header,
              )
            ];
          }
      after _ _ (closed s) sound = record {
        accepts = at_most_one s.is_working s.waiting sound.accepts;
        fresh = sound.fresh;
        sound = sound.sound;
        balanced = sound.balanced;
        ready = sound.ready;
      }
