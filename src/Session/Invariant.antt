-- ===== src/Session/Invariant.antt =====
-- What holds of a session between any two events.
use audio_server.Common.{
  ℕ, ◌+◌, ◌≤◌, ◌<◌, ◌≡◌, Bool, true, false, List, [], ◌∷◌, arith, All, ltb, ltb→lt, Bool-cases, ◌⊎◌,
  inl, inr, if◌then◌else◌,
}
use audio_server.Common.Words.{IsByte}
use audio_server.Common.Buffers.{Buffer, slice, store}
use audio_server.Protocol.{Packed}
use audio_server.Protocol.Frame.{Parameter, encode_frame}
use audio_server.Message.{CommonMessage, parse_message_head, take_head}
use audio_server.Interface
use audio_server.Session.{
  Session, Operation, read_head, read_body, write, start_operation, do_close, send_data,
  handle_read_header, handle_write,
}
use audio_server.Session.Sending.{IsAnswer}
use audio_server.Session.Events.{fill}

-- Of the bytes that are being sent: they are one frame of at most 19 bytes.
pub record IsSending (b : Buffer) (n : ℕ) : Type 0 where
  pub message_type : ℕ
  pub parameters : List Parameter
  pub frame : slice b 0 n ≡ encode_frame Interface.protocol_version message_type parameters
  pub small : n ≤ 19

-- The read fits behind the head in the input buffer of 128 KiB, and leaves the parser room.
abbrev pub OperationFits : Buffer → Operation → Type 0
OperationFits b read_head = Unit {0}
OperationFits b (read_body n) = n < 16379
OperationFits b (write n) = IsSending b n

-- At most one operation is pending.
abbrev pub PendingFits : Buffer → List Operation → Type 0
PendingFits b [] = Unit {0}
PendingFits b (op ∷ []) = OperationFits b op
PendingFits b (op ∷ op' ∷ rest) = ⊥

pub record IsSound (s : Session) : Type 0 where
  pub pending_fits : PendingFits s.output_buffer s.pending
  pub bytes : (j : ℕ) → IsByte (s.input_buffer j)

-- A session with no operation pending, as a handler finds it.
abbrev pub IsIdle : Session → Type 0
IsIdle s = (s.pending ≡ []) × ((j : ℕ) → IsByte (s.input_buffer j))

pub fill-IsByte :
    (xs : List ℕ) (i : ℕ) (b : Buffer)
    → All IsByte xs
    → ((j : ℕ) → IsByte (b j))
    → (j : ℕ) → IsByte (fill i xs b j)
unfolding fill store
fill-IsByte [] i b h bytes j = bytes j
fill-IsByte (x ∷ xs) i b h bytes j = ground (arith, fill-IsByte xs (i + 1) b h.1 bytes j)

pub start_operation-IsSound :
    (op : Operation) (s : Session)
    → IsIdle s
    → OperationFits s.output_buffer op
    → IsSound (start_operation op s)
unfolding start_operation
start_operation-IsSound op s idle fits = record { pending_fits = rw idle.0 fits; bytes = idle.1 }

pub IsIdle-IsSound : (s : Session) → IsIdle s → IsSound s
IsIdle-IsSound s idle = record { pending_fits = rw idle.0 tt; bytes = idle.1 }

pub send_data-IsSound :
    (build : Buffer → Packed) (message_type : ℕ) (ps : List Parameter) (s : Session)
    → IsIdle s
    → ((b : Buffer) → IsAnswer message_type ps (build b))
    → IsSound (send_data build s)
unfolding send_data
send_data-IsSound build message_type ps s idle answer =
    let a = answer s.output_buffer in
    start_operation-IsSound (write (build s.output_buffer).size)
      (record s { output_buffer = (build s.output_buffer).bytes }) idle
      (record { message_type = message_type; parameters = ps; frame = a.frame; small = a.small })

pub do_close-IsSound : (s : Session) → IsIdle s → IsSound (do_close s)
unfolding do_close
do_close-IsSound s idle = record { pending_fits = rw idle.0 tt; bytes = idle.1 }

pub handle_read_header-IsSound :
    (s : Session) (error : Bool) → IsIdle s → IsSound (handle_read_header s error)
unfolding handle_read_header parse_message_head
handle_read_header-IsSound s true idle = do_close-IsSound s idle
handle_read_header-IsSound s false idle = by_length (take_head s.info s.input_buffer) (Bool-cases _)
  where
    by_length :
        (m : CommonMessage)
        → (ltb m.message_body_length 16379 ≡ true) ⊎ (ltb m.message_body_length 16379 ≡ false)
        → IsSound (
            if ltb m.message_body_length 16379
            then start_operation (read_body m.message_body_length) (record s { info = m })
            else do_close (record s { info = m }))
    by_length m (inl short) = rw short (
        start_operation-IsSound (read_body m.message_body_length) (record s { info = m }) idle
          (ltb→lt _ _ short))
    by_length m (inr long) = rw long (do_close-IsSound (record s { info = m }) idle)

pub handle_write-IsSound : (s : Session) (error : Bool) → IsIdle s → IsSound (handle_write s error)
unfolding handle_write
handle_write-IsSound s true idle = do_close-IsSound s idle
handle_write-IsSound s false idle = start_operation-IsSound read_head s idle tt
