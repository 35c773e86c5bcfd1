-- ===== src/Session/Reachable.antt =====
-- The predicates of Session/Invariant over the branches of `handle_read_body` and over the events.
use audio_server.Common.{ℕ, ◌≡◌, refl, subst, List, [], ◌∷◌, arith}
use audio_server.Common.Buffers.{Buffer}
use audio_server.Message.{CommonMessage}
use audio_server.Ffmpeg.{Library}
use audio_server.Session.{
  Session, Shared, Media, Outcome, done, undefined, out_of_fuel, new_session, start,
  start_operation, read_head, Operation, read_body, write,
}
use audio_server.Session.Events.{Step, head_read, body_read, written, Reach, started, next, arrived}
use audio_server.Session.Handled.Dispatch.{handle_read_body-Handled}
use audio_server.Session.Handled.{Handled, bad_read, no_fuel, stops, goes_on, answers, with_message}
use audio_server.Session.Invariant.{
  start_operation-IsSound, IsSound, IsIdle, PendingFits, IsIdle-IsSound, send_data-IsSound,
  handle_read_header-IsSound, handle_write-IsSound, fill-IsByte,
}

abbrev OutcomeSound : Outcome (Session × Shared) → Type 0
OutcomeSound (done (s, shared)) = IsSound s
OutcomeSound undefined = Unit {0}
OutcomeSound out_of_fuel = Unit {0}

pub last_pending :
    (b : Buffer) (op : Operation) (rest : List Operation) → PendingFits b (op ∷ rest) → rest ≡ []
last_pending b op [] fits = refl
last_pending b op (_ ∷ _) fits = elim fits [ ]

module _ (answer : Library) (media : Media) (packet_fuel frame_fuel : ℕ) where
  Handled-OutcomeSound :
      (s : Session) (shared : Shared) (result : Outcome (Session × Shared))
      → IsIdle s
      → Handled s shared result
      → OutcomeSound result
  Handled-OutcomeSound s shared _ idle bad_read = tt
  Handled-OutcomeSound s shared _ idle no_fuel = tt
  Handled-OutcomeSound s shared _ idle (stops info channel_id socket_open) =
      IsIdle-IsSound (record (with_message info channel_id s) { socket_open = socket_open }) idle
  Handled-OutcomeSound s shared _ idle (goes_on info) =
      start_operation-IsSound read_head (with_message info s.channel_id s) idle tt
  Handled-OutcomeSound s shared _ idle
        (answers info channel_id new build message_type ps answer balanced extends) =
      send_data-IsSound build message_type ps (with_message info channel_id s) idle answer

  pub Step-IsSound :
      (t u : Session × Shared)
      → IsSound t.0
      → Step answer media packet_fuel frame_fuel t u
      → IsSound u.0
  Step-IsSound _ _ sound (head_read s shared rest bytes error pending bytes-IsByte short) =
      handle_read_header-IsSound (arrived 0 bytes rest s) error (
        last_pending s.output_buffer read_head rest
            (subst (PendingFits s.output_buffer) pending sound.pending_fits),
        fill-IsByte bytes 0 s.input_buffer bytes-IsByte sound.bytes,
      )
  Step-IsSound _ _ sound
        (body_read s shared rest n bytes error block_id t pending bytes-IsByte short result) =
      Handled-OutcomeSound (arrived 5 bytes rest s) shared (done t)
        (
          last_pending s.output_buffer (read_body n) rest
              (subst (PendingFits s.output_buffer) pending sound.pending_fits),
          fill-IsByte bytes 5 s.input_buffer bytes-IsByte sound.bytes,
        )
        (subst (Handled (arrived 5 bytes rest s) shared) result (
          handle_read_body-Handled answer media packet_fuel frame_fuel block_id
            (arrived 5 bytes rest s) shared error))
  Step-IsSound _ _ sound (written s shared rest n error pending) =
      handle_write-IsSound (record s { pending = rest }) error
        (
          last_pending s.output_buffer (write n) rest
              (subst (PendingFits s.output_buffer) pending sound.pending_fits),
          sound.bytes,
        )

  -- Whatever libav answers, and whatever bytes arrive in whatever pieces, a session that is
  -- started and then follows the events has at most one operation pending; what it reads fits
  -- behind the head in the input buffer and stays below the parser's limit of 16,379 bytes; what it
  -- sends is one whole frame of at most 19 bytes; and its input buffer holds bytes only.
  pub Reach-IsSound :
      (info : CommonMessage) (shared : Shared) (t : Session × Shared)
      → Reach answer media packet_fuel frame_fuel info shared t
      → IsSound t.0
  unfolding start new_session start_operation
  Reach-IsSound info shared _ started = record { pending_fits = tt; bytes = λ j. ground (arith) }
  Reach-IsSound info shared _ (next {t} {u} reached step) =
      Step-IsSound t u (Reach-IsSound info shared t reached) step
