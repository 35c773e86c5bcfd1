-- ===== src/Session/Conversation/Unique.antt =====
-- The bytes that a session reads determine what it writes.
use audio_server.Common.{
  ℕ, ◌≡◌, ◌≢◌, refl, sym, ap, ap₂, ◌∙◌, false, List, [], ◌∷◌, ◌++◌, length, All, arith,
  append-injective,
}
use audio_server.Ffmpeg.{Library}
use audio_server.Common.Buffers.{slice}
use audio_server.Session.{
  Session, Shared, Media, done, Operation, read_head, handle_read_header, handle_write,
}
use audio_server.Session.Dispatch.{handle_read_body}
use audio_server.Session.Events.{arrived}
use audio_server.Session.Conversation.{
  Trace, stay, reads_head, reads_body, writes, Request, stream_of, IsRequest, Continues,
  answers_to_all, channel_after_all, IsWaiting,
}
use audio_server.Session.Conversation.Run.{conversation}

done-injective : {A : Type 0} (x y : A) → done x ≡ done y → x ≡ y
done-injective x y e = cc e

no_bytes : (bytes rest : List ℕ) → length bytes ≡ 5 → [] ≢ bytes ++ rest
no_bytes [] rest five e = omega (arith, five)
no_bytes (x ∷ bytes) rest five e = cc e

-- The operations of the same state.
same_pending :
    (t u : Session × Shared) (ops ops' : List Operation)
    → t.0.pending ≡ ops
    → t ≡ u
    → u.0.pending ≡ ops'
    → ops ≡ ops'
same_pending t u ops ops' before e after = sym before ∙ ap (λ z. z.0.pending) e ∙ after

-- Two runs that read the same bytes and end where a head is waited for.
module _ (answer : Library) (media : Media) (packet_fuel frame_fuel : ℕ)
    (block_id : Session → ℕ) where
  abbrev WaitsForHead : Session × Shared → Type 0
  WaitsForHead t = t.0.pending ≡ read_head ∷ []

  Trace-unique :
      {t t' v v' : Session × Shared} {received received' : List ℕ} {sent sent' : List (List ℕ)}
      → Trace answer media packet_fuel frame_fuel block_id t received sent v
      → Trace answer media packet_fuel frame_fuel block_id t' received' sent' v'
      → t ≡ t'
      → received ≡ received'
      → WaitsForHead v
      → WaitsForHead v'
      → (sent ≡ sent') × (v ≡ v')
  Trace-unique (stay t) (stay t') e same w w' = (refl, e)
  Trace-unique (stay t)
        (reads_head s shared rest bytes received sent v pending bytes-IsByte five after) e same w
        w' =
      absurd (no_bytes bytes received five same)
  Trace-unique (stay t)
        (reads_body s shared rest n bytes received sent u v pending bytes-IsByte all handled after)
        e same w w' =
      absurd (cc (same_pending t (s, shared) _ _ w e pending))
  Trace-unique (stay t) (writes s shared rest n received sent v pending after) e same w w' =
      absurd (cc (same_pending t (s, shared) _ _ w e pending))
  Trace-unique (reads_head x first rest bytes received sent v pending bytes-IsByte five after)
        (stay t) e same w w' =
      absurd (no_bytes bytes received five (sym same))
  Trace-unique
        (reads_body x first rest n bytes received sent u v pending bytes-IsByte all handled after)
        (stay t) e same w w' =
      absurd (cc (same_pending (x, first) t _ _ pending e w'))
  Trace-unique (writes x first rest n received sent v pending after) (stay t) e same w w' =
      absurd (cc (same_pending (x, first) t _ _ pending e w'))
  Trace-unique (reads_head x first rest bytes received sent v pending bytes-IsByte five after)
        (reads_head y second rest' bytes' received' sent' v' pending' bytes'-IsByte five' after') e
        same w w' =
      let ops = same_pending (x, first) (y, second) _ _ pending e pending' in
      let same_rest : rest ≡ rest' = cc ops in
      let (same_bytes, behind) =
        append-injective bytes bytes' received received' (five ∙ sym five') same in
      Trace-unique after after'
        (λ i. (handle_read_header (arrived 0 (same_bytes i) (same_rest i) (e i).0) false, (e i).1))
        behind w w'
  Trace-unique (reads_head x first rest bytes received sent v pending bytes-IsByte five after)
        (reads_body y second rest' n' bytes' received' sent' u' v' pending' bytes'-IsByte all'
          handled' after')
        e same w w' =
      absurd (cc (same_pending (x, first) (y, second) _ _ pending e pending'))
  Trace-unique (reads_head x first rest bytes received sent v pending bytes-IsByte five after)
        (writes y second rest' n' received' sent' v' pending' after') e same w w' =
      absurd (cc (same_pending (x, first) (y, second) _ _ pending e pending'))
  Trace-unique
        (reads_body x first rest n bytes received sent u v pending bytes-IsByte all handled after)
        (reads_head y second rest' bytes' received' sent' v' pending' bytes'-IsByte five' after') e
        same w w' =
      absurd (cc (same_pending (x, first) (y, second) _ _ pending e pending'))
  Trace-unique
        (reads_body x first rest n bytes received sent u v pending bytes-IsByte all handled after)
        (reads_body y second rest' n' bytes' received' sent' u' v' pending' bytes'-IsByte all'
          handled' after')
        e same w w' =
      let ops = same_pending (x, first) (y, second) _ _ pending e pending' in
      let same_rest : rest ≡ rest' = cc ops in
      let same_size : n ≡ n' = cc ops in
      let (same_bytes, behind) =
        append-injective bytes bytes' received received' (all ∙ same_size ∙ sym all') same in
      Trace-unique after after'
        (done-injective u u' (
          sym handled
          ∙ (λ i.
              handle_read_body answer media packet_fuel frame_fuel (block_id (e i).0)
                (arrived 5 (same_bytes i) (same_rest i) (e i).0) (e i).1 false)
          ∙ handled'))
        behind w w'
  Trace-unique
        (reads_body x first rest n bytes received sent u v pending bytes-IsByte all handled after)
        (writes y second rest' n' received' sent' v' pending' after') e same w w' =
      absurd (cc (same_pending (x, first) (y, second) _ _ pending e pending'))
  Trace-unique (writes x first rest n received sent v pending after)
        (reads_head y second rest' bytes' received' sent' v' pending' bytes'-IsByte five' after') e
        same w w' =
      absurd (cc (same_pending (x, first) (y, second) _ _ pending e pending'))
  Trace-unique (writes x first rest n received sent v pending after)
        (reads_body y second rest' n' bytes' received' sent' u' v' pending' bytes'-IsByte all'
          handled' after')
        e same w w' =
      absurd (cc (same_pending (x, first) (y, second) _ _ pending e pending'))
  Trace-unique (writes x first rest n received sent v pending after)
        (writes y second rest' n' received' sent' v' pending' after') e same w w' =
      let ops = same_pending (x, first) (y, second) _ _ pending e pending' in
      let same_rest : rest ≡ rest' = cc ops in
      let same_size : n ≡ n' = cc ops in
      let (as_sent, ends) =
        Trace-unique after after'
          (λ i. (handle_write (record (e i).0 { pending = same_rest i }) false, (e i).1)) same w
          w' in
      (ap₂ ◌∷◌ (λ i. slice (e i).0.output_buffer 0 (same_size i)) as_sent, ends)

-- No other answers are possible. If a session that waits for a message reads exactly the bytes of
-- setups, tests and statuses that a client's builders made, for channels below 65,536 and versions
-- that are bytes, in any number and order, if every operation succeeds, and if it waits for a
-- message again at the end, then it has written a status of the new channel for every setup, a
-- status of the channel that was set up last for every test, in this order, and nothing else; and
-- it has the number of the last setup, and has called nothing of libav.
pub conversation_determined :
    (answer : Library) (media : Media) (packet_fuel frame_fuel : ℕ) (block_id : Session → ℕ)
    (shared : Shared) (requests : List Request) (s : Session) (sent : List (List ℕ))
    (v : Session × Shared)
    → All IsRequest requests
    → All (λ r. Continues r.message) requests
    → IsWaiting s
    → Trace answer media packet_fuel frame_fuel block_id (s, shared) (stream_of requests) sent v
    → v.0.pending ≡ read_head ∷ []
    → (sent ≡ answers_to_all s.channel_id requests)
      × (v.0.channel_id ≡ channel_after_all s.channel_id requests)
      × (v.1 ≡ shared)
conversation_determined answer media packet_fuel frame_fuel block_id shared requests s sent v valid
      continue waiting trace waits =
    let (t, other, waiting', number) =
      conversation answer media packet_fuel frame_fuel block_id shared requests s valid continue
        waiting in
    let (answers, ends) =
      Trace-unique answer media packet_fuel frame_fuel block_id trace other refl refl waits
        waiting'.0 in
    (answers, ap (λ z. z.0.channel_id) ends ∙ number, ap (λ z. z.1) ends)
