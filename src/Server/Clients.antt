-- ===== src/Server/Clients.antt =====
-- A client of the server: it connects and converses with its session.
use audio_server.Common.{
  ℕ, ◌≡◌, refl, ap, subst, true, false, List, [], ◌∷◌, All, length, arith, if◌then◌else◌,
}
use audio_server.Message.{CommonMessage}
use audio_server.Ffmpeg.{Library}
use audio_server.Session.{Session, Shared, new_session, start, start_operation}
use audio_server.Session.Events.{head_read, body_read, written}
use audio_server.Session.Conversation.{
  Trace, stay, reads_head, reads_body, writes, Request, stream_of, IsRequest, Continues,
  answers_to_all, IsWaiting,
}
use audio_server.Session.Conversation.Run.{conversation}
use audio_server.System.{Settings}
use audio_server.Server.Output.{media}
use audio_server.Server.{Server, handle_accept, start_accept}
use audio_server.Server.Events.{
  here, accepted, session_event, ServerReach, ServerRun, no_event, one_more,
}
use audio_server.Server.Invariant.{AcceptsFit, IsNew}
use audio_server.Server.Interleaved.{ServerReach-ServerSound}

-- The server with its newest session, and what the sessions share.
abbrev with_newest : Server → List Session → Session × Shared → Server
with_newest s others t = record s { sessions = t.0 ∷ others; shared = t.1 }

module _ (answer : Library) (settings : Settings) (packet_fuel frame_fuel : ℕ)
    (block_id : Session → ℕ) (info : CommonMessage) where
  -- The events of the newest session are events of the server.
  Trace-ServerRun :
      (first s : Server) (others : List Session) {t u : Session × Shared} {received : List ℕ}
      {sent : List (List ℕ)}
      → Trace answer (media s.output) packet_fuel frame_fuel block_id t received sent u
      → ServerRun answer packet_fuel frame_fuel first (with_newest s others t)
      → ServerRun answer packet_fuel frame_fuel first (with_newest s others u)
  Trace-ServerRun first s others (stay t) reached = reached
  Trace-ServerRun first s others
        (reads_head x shared rest bytes received sent v pending bytes-IsByte five after) reached =
      Trace-ServerRun first s others after (
        one_more reached (
          session_event (with_newest s others (x, shared)) _ _ (
            here x _ others
              (head_read x shared rest bytes false pending bytes-IsByte (omega (arith, five))))))
  Trace-ServerRun first s others
        (reads_body x shared rest n bytes received sent u v pending bytes-IsByte all e after)
        reached =
      Trace-ServerRun first s others after (
        one_more reached (
          session_event (with_newest s others (x, shared)) (u.0 ∷ others) u.1 (
            here x u.0 others (
              body_read x shared rest n bytes false (block_id x) u pending bytes-IsByte
                (omega (arith, all)) e))))
  Trace-ServerRun first s others (writes x shared rest n received sent v pending after) reached =
      Trace-ServerRun first s others after (
        one_more reached (
          session_event (with_newest s others (x, shared)) _ _
            (here x _ others (written x shared rest n false pending))))

  the_waiting :
      (waiting : List Session)
      → length waiting ≡ 1
      → All IsNew waiting
      → (first : CommonMessage) × (waiting ≡ new_session first ∷ [])
  the_waiting [] one fresh = absurd (omega (arith, one))
  the_waiting (x ∷ []) one fresh = (fresh.0.0, ap (λ y. y ∷ []) fresh.0.1)
  the_waiting (x ∷ _ ∷ _) one fresh = absurd (omega (arith, one))

  -- The server that has accepted a client and waits for the next one.
  abbrev with_client : CommonMessage → Server → Server
  with_client first s =
      start_accept info
        (record s { waiting = []; sessions = start (new_session first) ∷ s.sessions })

  client_accepted :
      (first : CommonMessage) (s : Server)
      → s.is_working ≡ true
      → s.waiting ≡ new_session first ∷ []
      → ServerRun answer packet_fuel frame_fuel s (with_client first s)
  unfolding handle_accept
  client_accepted first s working waiting =
      subst
        (λ b. ServerRun answer packet_fuel frame_fuel s (
          if b
          then with_client first s
          else record s { waiting = []; sessions = start (new_session first) ∷ s.sessions }))
        working (one_more no_event (accepted s (new_session first) [] info false waiting))

  -- From every state `s` that the server can come to after `main` has started it, whatever libav
  -- answers, and while the server works: a client can connect and send setups, tests and statuses
  -- of channels below 65,536, built in any version of the protocol that is a byte, in any number
  -- and order. That is, there is a run of the server from `s` on in which the client is accepted
  -- and its session reads exactly these bytes and writes the status for every setup and every test,
  -- and then waits for the next message; behind the run the server still works, and the other
  -- sessions, the encoder and the time stamp are as in `s`.
  pub client_served :
      (requests : List Request) (s : Server)
      → ServerReach answer packet_fuel frame_fuel settings info s
      → s.is_working ≡ true
      → All IsRequest requests
      → All (λ r. Continues r.message) requests
      → (first : CommonMessage) × (t : Session) × (u : Server) × ServerRun answer packet_fuel
          frame_fuel s u
        × Trace answer
            (media s.output)
            packet_fuel
            frame_fuel
            block_id
            (start (new_session first), s.shared)
            (stream_of requests)
            (answers_to_all 0 requests)
            (t, s.shared)
        × IsWaiting t
        × (u.sessions ≡ t ∷ s.sessions)
        × (u.is_working ≡ true)
        × (u.shared ≡ s.shared)
        × (u.output ≡ s.output)
  unfolding start new_session start_operation start_accept
  client_served requests s reached working valid continue =
      let sound = ServerReach-ServerSound answer settings packet_fuel frame_fuel info s reached in
      let (first, waiting) =
        the_waiting s.waiting (subst (λ b. AcceptsFit b s.waiting) working sound.accepts)
          sound.fresh in
      let (t, trace, waits, number) =
        conversation answer (media s.output) packet_fuel frame_fuel block_id s.shared requests
          (start (new_session first)) valid continue (refl, refl) in
      (
        first,
        t,
        with_newest (with_client first s) s.sessions (t, s.shared),
        Trace-ServerRun s (with_client first s) s.sessions trace
            (client_accepted first s working waiting),
        trace,
        waits,
        refl,
        working,
        refl,
        refl,
      )
