-- ===== src/Tests/Conversations.antt =====
-- A conversation of three messages, and the client of a server that has it.
use audio_server.Common.{◌≡◌, refl, true, List, [], ◌∷◌, All, arith}
use audio_server.Interface.RoundTrip.{setup, test, status}
use audio_server.Session.{Session, start, new_session, start_operation}
use audio_server.Session.Conversation.{
  Trace, Request, request, stream_of, IsRequest, Continues, channel_after_all, answers_to_all,
  IsWaiting,
}
use audio_server.Session.Conversation.Run.{conversation}
use audio_server.Session.Conversation.Unique.{conversation_determined}
use audio_server.Server.Clients.{client_served}
use audio_server.Tests.Served.{listening, listening_reached, listening-is_working}
use audio_server.Message.{CommonMessage}
use audio_server.Server.{Server}
use audio_server.Server.Events.{ServerRun}
use audio_server.Server.Output.{media}
use audio_server.System.{default_settings}
use audio_server.Tests.Inputs.{fresh, succeeding, steady, stereo, unused, blank}
use audio_server.Tests.Reached.{waiting}

-- Channel 7 is set up, tested under another number, and reports its status.
abbrev requests : List Request
requests = request setup 1 7 blank ∷ request test 1 300 blank ∷ request status 1 7 blank ∷ []

valid : All IsRequest requests
valid = ((omega arith, omega arith), ((omega arith, omega arith), ((omega arith, omega arith), tt)))

continue : All (λ (r : Request). Continues r.message) requests
continue = (tt, (tt, (tt, tt)))

waiting-IsWaiting : IsWaiting waiting
unfolding start new_session start_operation
waiting-IsWaiting = (refl, refl)

conversation_example :
    (t : Session) × Trace steady stereo 1 1
      (λ _. 9)
      (waiting, unused)
      (stream_of requests)
      (answers_to_all waiting.channel_id requests)
      (t, unused)
    × IsWaiting t
    × (t.channel_id ≡ channel_after_all waiting.channel_id requests)
conversation_example =
    conversation steady stereo 1 1 (λ _. 9) unused requests waiting valid continue waiting-IsWaiting

conversation_determined_example :
    (answers_to_all waiting.channel_id requests ≡ answers_to_all waiting.channel_id requests)
    × (conversation_example.0.channel_id ≡ channel_after_all waiting.channel_id requests)
    × (unused ≡ unused)
conversation_determined_example =
    conversation_determined steady stereo 1 1 (λ _. 9) unused requests waiting
      (answers_to_all waiting.channel_id requests) (conversation_example.0, unused) valid continue
      waiting-IsWaiting conversation_example.1 conversation_example.2.0

client_served_example :
    (first : CommonMessage) × (t : Session) × (u : Server) × ServerRun succeeding 1 1 listening u
    × Trace succeeding
        (media listening.output)
        1
        1
        (λ _. 9)
        (start (new_session first), listening.shared)
        (stream_of requests)
        (answers_to_all 0 requests)
        (t, listening.shared)
    × IsWaiting t
    × (u.sessions ≡ t ∷ listening.sessions)
    × (u.is_working ≡ true)
    × (u.shared ≡ listening.shared)
    × (u.output ≡ listening.output)
client_served_example =
    client_served succeeding default_settings 1 1 (λ _. 9) fresh requests listening
      listening_reached listening-is_working valid continue
