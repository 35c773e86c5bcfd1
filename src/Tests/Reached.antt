-- ===== src/Tests/Reached.antt =====
-- A session that has received a message.
use audio_server.Common.{ℕ, ◌≡◌, refl, false, List, [], ◌∷◌, arith, All}
use audio_server.Common.Words.{IsByte}
use audio_server.Message.{parse_message_head, parse_message, scan_body}
use audio_server.Protocol.{unpack_message_head, unpack_parameter}
use audio_server.Common.Buffers.{store}
use audio_server.Session.{
  Session, Shared, done, undefined, out_of_fuel, read_body, new_session, start, start_operation,
  handle_read_header,
}
use audio_server.Session.Dispatch.{dispatch, handle_read_body}
use audio_server.Session.Events.{Step, head_read, body_read, Reach, started, next, fill, arrived}
use audio_server.Session.Invariant.{IsSound}
use audio_server.Session.Reachable.{Reach-IsSound}
use audio_server.Session.Phases.{Phase, PhaseStep, phase, Reach-PhaseStep}
use audio_server.Tests.Inputs.{fresh, steady, stereo, unused}

abbrev pub waiting : Session
waiting = start (new_session fresh)

abbrev pub head_bytes : List ℕ
head_bytes = 1 ∷ 0 ∷ 0x11 ∷ 0 ∷ 0 ∷ []

pub head_bytes-IsByte : All IsByte head_bytes
head_bytes-IsByte = (omega arith, (omega arith, (omega arith, (omega arith, (omega arith, tt)))))

-- The head of a channel_test without parameters has arrived.
abbrev pub with_head : Session
with_head = handle_read_header (arrived 0 head_bytes [] waiting) false

abbrev answered : Session × Shared
answered =
    elim (handle_read_body steady stereo 1 1 0 (arrived 5 [] [] with_head) unused false)
      as (λ _. Session × Shared) [
        | done t ↦ t
        | undefined ↦ (with_head, unused)
        | out_of_fuel ↦ (with_head, unused)
      ]

answered_lem :
    handle_read_body steady stereo 1 1 0 (arrived 5 [] [] with_head) unused false ≡ done answered
unfolding start new_session start_operation handle_read_header fill handle_read_body dispatch
    parse_message_head parse_message unpack_message_head store scan_body unpack_parameter
answered_lem = refl

with_head-pending : with_head.pending ≡ read_body 0 ∷ []
unfolding start new_session start_operation handle_read_header fill parse_message_head
    unpack_message_head store
with_head-pending = refl

head_reached : Reach steady stereo 1 1 fresh unused (with_head, unused)
unfolding start new_session start_operation
head_reached =
    next started (head_read waiting unused [] head_bytes false refl head_bytes-IsByte (omega arith))

body_event : Step steady stereo 1 1 (with_head, unused) answered
body_event =
    body_read with_head unused [] 0 [] false 0 answered with_head-pending tt (omega arith)
      answered_lem

reached : Reach steady stereo 1 1 fresh unused answered
reached = next head_reached body_event

Reach-IsSound_example : IsSound answered.0
Reach-IsSound_example = Reach-IsSound steady stereo 1 1 fresh unused answered reached

Reach-PhaseStep_example :
    (phase (start (new_session fresh)).pending ≡ Phase.waiting)
    × PhaseStep (phase with_head.pending) (phase answered.0.pending)
Reach-PhaseStep_example =
    Reach-PhaseStep steady stereo 1 1 fresh unused (with_head, unused) answered head_reached
      body_event
