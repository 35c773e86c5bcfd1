-- ===== src/Session/Events.antt =====
-- The event loop around a session, as a step relation. An operation that ends is taken out of
-- `pending` and its handler is called: a read that succeeds has filled its part of the input
-- buffer, one that fails has filled some of it.
use audio_server.Common.{ℕ, ◌+◌, ◌≤◌, ◌≡◌, Bool, List, [], ◌∷◌, length, All}
use audio_server.Common.Words.{IsByte}
use audio_server.Common.Buffers.{Buffer, store}
use audio_server.Ffmpeg.{Library}
use audio_server.Message.{CommonMessage}
use audio_server.Session.{
  Session, Shared, Media, done, Operation, read_head, read_body, write, new_session, start,
  handle_read_header, handle_write,
}
use audio_server.Session.Dispatch.{handle_read_body}

-- The bytes that a read brings, from an offset of the buffer on.
unfoldable pub fill : ℕ → List ℕ → Buffer → Buffer
fill offset [] b = b
fill offset (x ∷ xs) b = store offset x (fill (offset + 1) xs b)

abbrev pub arrived : ℕ → List ℕ → List Operation → Session → Session
arrived offset bytes rest s = record s {
  pending = rest;
  input_buffer = fill offset bytes s.input_buffer;
}

module _ (answer : Library) (media : Media) (packet_fuel frame_fuel : ℕ) where
  pub data Step : Session × Shared → Session × Shared → Type 0 where
    head_read :
        (s : Session) (shared : Shared) (rest : List Operation) (bytes : List ℕ) (error : Bool)
        → s.pending ≡ read_head ∷ rest
        → All IsByte bytes
        → length bytes ≤ 5
        → Step (s, shared) (handle_read_header (arrived 0 bytes rest s) error, shared)
    body_read :
        (s : Session) (shared : Shared) (rest : List Operation) (n : ℕ) (bytes : List ℕ)
        (error : Bool) (block_id : ℕ) (t : Session × Shared)
        → s.pending ≡ read_body n ∷ rest
        → All IsByte bytes
        → length bytes ≤ n
        → handle_read_body answer media packet_fuel frame_fuel block_id
            (arrived 5 bytes rest s)
            shared
            error
          ≡ done t
        → Step (s, shared) t
    written :
        (s : Session) (shared : Shared) (rest : List Operation) (n : ℕ) (error : Bool)
        → s.pending ≡ write n ∷ rest
        → Step (s, shared) (handle_write (record s { pending = rest }) error, shared)

  -- What a new session can come to, once it is started.
  pub data Reach (info : CommonMessage) (shared : Shared) : Session × Shared → Type 0 where
    started : Reach info shared (start (new_session info), shared)
    next : {t u : Session × Shared} → Reach info shared t → Step t u → Reach info shared u
