-- ===== src/Session/Phases.antt =====
-- The phases of a session: the protocol that a client can rely on, without the messages' contents.
use audio_server.Common.{
  ℕ, ◌≤◌, ◌<◌, ◌≡◌, refl, subst, Bool, true, false, List, [], ◌∷◌, Bool-cases, inl, inr, ltb,
  ltb→lt,
}
use audio_server.Ffmpeg.{Library}
use audio_server.Message.{CommonMessage, parse_message_head, take_head}
use audio_server.Session.{
  Session, Shared, Media, Outcome, done, undefined, out_of_fuel, Operation, read_head, read_body,
  write, new_session, start, start_operation, do_close, handle_read_header, handle_write, send_data,
}
use audio_server.Session.Events.{Step, head_read, body_read, written, Reach, arrived}
use audio_server.Session.Invariant.{IsSound, PendingFits}
use audio_server.Session.Handled.Dispatch.{handle_read_body-Handled}
use audio_server.Session.Handled.{Handled, bad_read, no_fuel, stops, goes_on, answers}
use audio_server.Session.Reachable.{Reach-IsSound, last_pending}

pub data Phase : Type 0 where
  waiting : Phase
  reading sending : ℕ → Phase
  ended : Phase

abbrev pub phase : List Operation → Phase
phase [] = ended
phase (read_head ∷ _) = waiting
phase (read_body n ∷ _) = reading n
phase (write n ∷ _) = sending n

-- A head announces a body or is refused; a body is answered, noted without an answer, or ends the
-- session; and behind an answer the next head is waited for, if it could be sent.
pub data PhaseStep : Phase → Phase → Type 0 where
  announced : (n : ℕ) → n < 16379 → PhaseStep waiting (reading n)
  refused : PhaseStep waiting ended
  answered : (n m : ℕ) → m ≤ 19 → PhaseStep (reading n) (sending m)
  noted : (n : ℕ) → PhaseStep (reading n) waiting
  finished : (n : ℕ) → PhaseStep (reading n) ended
  sent : (n : ℕ) → PhaseStep (sending n) waiting
  broken : (n : ℕ) → PhaseStep (sending n) ended

handle_read_header-PhaseStep :
    (s : Session) (error : Bool)
    → s.pending ≡ []
    → PhaseStep waiting (phase (handle_read_header s error).pending)
unfolding handle_read_header parse_message_head do_close start_operation
handle_read_header-PhaseStep s true idle = rw idle refused
handle_read_header-PhaseStep s false idle =
    let m = take_head s.info s.input_buffer in
    elim (Bool-cases (ltb m.message_body_length 16379)) [
      | inl short ↦ rw (short, idle) (announced m.message_body_length (ltb→lt _ _ short))
      | inr long ↦ rw (long, idle) refused
    ]

abbrev WhenHandled : ℕ → Outcome (Session × Shared) → Type 0
WhenHandled n (done (t, shared)) = PhaseStep (reading n) (phase t.pending)
WhenHandled n undefined = Unit {0}
WhenHandled n out_of_fuel = Unit {0}

Handled-PhaseStep :
    (n : ℕ) (s : Session) (shared : Shared) (result : Outcome (Session × Shared))
    → s.pending ≡ []
    → Handled s shared result
    → WhenHandled n result
unfolding start_operation send_data
Handled-PhaseStep n s shared _ idle bad_read = tt
Handled-PhaseStep n s shared _ idle no_fuel = tt
Handled-PhaseStep n s shared _ idle (stops info channel_id socket_open) = rw idle (finished n)
Handled-PhaseStep n s shared _ idle (goes_on info) = rw idle (noted n)
Handled-PhaseStep n s shared _ idle
      (answers info channel_id new build message_type ps answer balanced extends) =
    rw idle (answered n _ (answer s.output_buffer).small)

handle_write-PhaseStep :
    (n : ℕ) (s : Session) (error : Bool)
    → s.pending ≡ []
    → PhaseStep (sending n) (phase (handle_write s error).pending)
unfolding handle_write do_close start_operation
handle_write-PhaseStep n s true idle = rw idle (broken n)
handle_write-PhaseStep n s false idle = rw idle (sent n)

module _ (answer : Library) (media : Media) (packet_fuel frame_fuel : ℕ) where
  Step-PhaseStep :
      (t u : Session × Shared)
      → IsSound t.0
      → Step answer media packet_fuel frame_fuel t u
      → PhaseStep (phase t.0.pending) (phase u.0.pending)
  Step-PhaseStep _ _ sound (head_read s shared rest bytes error pending bytes-IsByte short) =
      rw pending (
        handle_read_header-PhaseStep (arrived 0 bytes rest s) error (
          last_pending s.output_buffer read_head rest
            (subst (PendingFits s.output_buffer) pending sound.pending_fits)))
  Step-PhaseStep _ _ sound
        (body_read s shared rest n bytes error block_id u pending bytes-IsByte short result) =
      rw pending (
        Handled-PhaseStep n (arrived 5 bytes rest s) shared (done u)
          (last_pending s.output_buffer (read_body n) rest
            (subst (PendingFits s.output_buffer) pending sound.pending_fits))
          (subst (Handled (arrived 5 bytes rest s) shared) result (
            handle_read_body-Handled answer media packet_fuel frame_fuel block_id
              (arrived 5 bytes rest s) shared error)))
  Step-PhaseStep _ _ sound (written s shared rest n error pending) = rw pending (
      handle_write-PhaseStep n (record s { pending = rest }) error
        (last_pending s.output_buffer (write n) rest
          (subst (PendingFits s.output_buffer) pending sound.pending_fits)))

  -- Whatever libav answers, and whatever bytes arrive in whatever pieces: a session that was just
  -- started waits for a head, and every event in a state that it can come to is a step of the
  -- phases. Waiting for a head goes on to reading a body of fewer than 16,379 bytes, or ends;
  -- reading a body goes on to sending one answer of at most 19 bytes, to waiting for a head, or
  -- ends; and sending an answer goes on to waiting for a head, or ends.
  pub Reach-PhaseStep :
      (info : CommonMessage) (shared : Shared) (t u : Session × Shared)
      → Reach answer media packet_fuel frame_fuel info shared t
      → Step answer media packet_fuel frame_fuel t u
      → (phase (start (new_session info)).pending ≡ waiting)
        × PhaseStep (phase t.0.pending) (phase u.0.pending)
  unfolding start new_session start_operation
  Reach-PhaseStep info shared t u reached step = (
    refl,
    Step-PhaseStep t u (Reach-IsSound answer media packet_fuel frame_fuel info shared t reached)
        step,
  )
