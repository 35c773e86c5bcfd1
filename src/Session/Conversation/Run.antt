-- ===== src/Session/Conversation/Run.antt =====
-- Conversations of a client with a session: one exchange after the other.
use mathlib.Core.List.{append_assoc}
use audio_server.Common.{ℕ, ◌≡◌, refl, sym, ap, ◌∙◌, subst, List, [], ◌∷◌, ◌++◌, All}
use audio_server.Ffmpeg.{Library}
use audio_server.Session.{Session, Shared, Media}
use audio_server.Session.Conversation.{
  Trace, stay, reads_head, reads_body, writes, Request, bytes_of, stream_of, IsRequest, Continues,
  channel_after, answers_to, channel_after_all, answers_to_all, IsWaiting,
}
use audio_server.Session.Conversation.Exchange.{exchange}

module _ (answer : Library) (media : Media) (packet_fuel frame_fuel : ℕ) (block_id : Session → ℕ)
    (shared : Shared) where
  -- Two traces, one after the other.
  joined :
      (s : Session) {t : Session × Shared} (u : Session) (received received' : List ℕ)
      (sent sent' : List (List ℕ))
      → Trace answer media packet_fuel frame_fuel block_id t received sent (s, shared)
      → Trace answer media packet_fuel frame_fuel block_id (s, shared) received' sent' (u, shared)
      → Trace answer media packet_fuel frame_fuel block_id t
          (received ++ received')
          (sent ++ sent')
          (u, shared)
  joined s u _ received' _ sent' (stay _) after = after
  joined s u _ received' _ sent'
        (reads_head x first rest bytes received sent _ pending bytes-IsByte five more) after =
      subst
        (λ xs.
          Trace answer media packet_fuel frame_fuel block_id (x, first) xs (sent ++ sent')
            (u, shared))
        (sym (append_assoc bytes received received'))
        (reads_head x first rest bytes (received ++ received') (sent ++ sent') _ pending
          bytes-IsByte five (joined s u received received' sent sent' more after))
  joined s u _ received' _ sent'
        (reads_body x first rest n bytes received sent y _ pending bytes-IsByte all e more) after =
      subst
        (λ xs.
          Trace answer media packet_fuel frame_fuel block_id (x, first) xs (sent ++ sent')
            (u, shared))
        (sym (append_assoc bytes received received'))
        (reads_body x first rest n bytes (received ++ received') (sent ++ sent') y _ pending
          bytes-IsByte all e (joined s u received received' sent sent' more after))
  joined s u _ received' _ sent' (writes x first rest n received sent _ pending more) after =
      writes x first rest n (received ++ received') (sent ++ sent') _ pending
        (joined s u received received' sent sent' more after)

-- Whatever libav is, and whatever setups, tests and statuses a client's builders make, for channels
-- below 65,536 and versions that are bytes, in any number and order: a session that waits for a
-- message has a run in which every operation succeeds and exactly the bytes of these messages are
-- read. It answers every setup with a status of the new channel, and every test with a status of
-- the channel that was set up last, in this order and with nothing in between; and it ends waiting
-- for the next message, with the number of the channel that was set up last.
pub conversation :
    (answer : Library) (media : Media) (packet_fuel frame_fuel : ℕ) (block_id : Session → ℕ)
    (shared : Shared) (requests : List Request) (s : Session)
    → All IsRequest requests
    → All (λ r. Continues r.message) requests
    → IsWaiting s
    → (t : Session) × Trace answer media packet_fuel frame_fuel block_id
        (s, shared)
        (stream_of requests)
        (answers_to_all s.channel_id requests)
        (t, shared)
      × IsWaiting t
      × (t.channel_id ≡ channel_after_all s.channel_id requests)
conversation answer media packet_fuel frame_fuel block_id shared [] s valid continue waiting =
    (s, stay _, waiting, refl)
conversation answer media packet_fuel frame_fuel block_id shared (r ∷ rs) s valid continue waiting =
    let (t, trace, waiting', number) =
      exchange answer media packet_fuel frame_fuel block_id shared r.message r.version r.channel_id
        r.cache s valid.0 continue.0 waiting in
    let (u, after, waiting'', number') =
      conversation answer media packet_fuel frame_fuel block_id shared rs t valid.1 continue.1
        waiting' in
    (
      u,
      joined answer media packet_fuel frame_fuel block_id shared t u (bytes_of r) (stream_of rs)
          (answers_to s.channel_id r) (answers_to_all (channel_after s.channel_id r) rs) trace
          (subst
            (λ c.
              Trace answer media packet_fuel frame_fuel block_id (t, shared) (stream_of rs)
                (answers_to_all c rs) (u, shared))
            number after),
      waiting'',
      number' ∙ ap (λ c. channel_after_all c rs) number,
    )
