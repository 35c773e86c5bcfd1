-- ===== src/Message/Parse.antt =====
-- `parse_message` and `parse_message_head` against the frame format.
use audio_server.Common.{
  ℕ, suc, ◌+◌, ◌≤◌, ◌<◌, ◌≡◌, ◌↔◌, refl, ap, ◌∙◌, sym, Bool, true, some, List, [], ◌∷◌, arith,
  length, All, ==_refl, lt→leb, append-injective,
}
use audio_server.Common.Words.{IsByte}
use audio_server.Common.Buffers.{Buffer, slice, slice-append, length-slice, copy_bytes}
use audio_server.Protocol.{unpack_message_head}
use audio_server.Protocol.Frame.{
  Parameter, IsParameter, encode_parameters, encode_head, encode_frame, body_size, body_size-cons,
}
use audio_server.Protocol.Package.{Holds, Holds-encode_frame}
use audio_server.Message.{CommonMessage, Scan, scan_parameters, scan_body, parse_message}
use audio_server.Message.Loop.{ends, scan_parameters_total, scan_parameters-ends}
use audio_server.Message.Sound.{scan_parameters-Read}

-- The head of a frame is read back as it was written.
pub unpack_message_head-Holds :
    (version message_type : ℕ) (ps : List Parameter) (b : Buffer)
    → message_type < 65536
    → body_size ps < 65536
    → Holds version message_type ps b
    → unpack_message_head b ≡ record {
      protocol_version = version;
      message_type = message_type;
      message_length = body_size ps;
    }
unfolding unpack_message_head slice encode_head
unpack_message_head-Holds version message_type ps b ht hs h = ground (arith, h.head)

pub encode_frame-Holds :
    (version message_type : ℕ) (ps : List Parameter) (b : Buffer)
    → slice b 0 (5 + body_size ps) ≡ encode_frame version message_type ps
    → Holds version message_type ps b
unfolding encode_frame encode_head
encode_frame-Holds version message_type ps b h =
    let (head, body) =
      append-injective (slice b 0 5) (encode_head version message_type (body_size ps))
        (slice b 5 (body_size ps)) (encode_parameters ps) (length-slice b 0 5)
        (sym (slice-append b 0 5 (body_size ps)) ∙ h) in
    record { head = head; body = body }

scan_body-eq :
    (message : Buffer) (body : ℕ) (s : Scan)
    → scan_parameters (suc body) message body 5 ≡ some s
    → scan_body message body ≡ s
unfolding scan_body
scan_body-eq message body s e = rw (e, scan_body)

-- A message that the parser may accept: a frame of at least one parameter whose body is shorter
-- than 16379 bytes.
pub record IsFrame (message : Buffer) : Type 0 where
  pub version : ℕ
  pub message_type : ℕ
  pub first : Parameter
  pub others : List Parameter
  pub type_fits : message_type < 65536
  pub valid : All IsParameter (first ∷ others)
  pub short : body_size (first ∷ others) < 16379
  pub bytes :
      slice message 0 (5 + body_size (first ∷ others))
      ≡ encode_frame version message_type (first ∷ others)

-- What the object holds after the frame of `ps` has been parsed.
abbrev pub parsed : CommonMessage → Buffer → ℕ → ℕ → List Parameter → CommonMessage
parsed m message version message_type ps = record {
  message_body_length = body_size ps;
  message_data = copy_bytes (5 + body_size ps) message m.message_data;
  message_type = message_type;
  protocol_version = version;
  parameter_positions = 5 ∷ ends 5 ps;
}

pub length-le-body_size : (ps : List Parameter) → length ps ≤ body_size ps
length-le-body_size [] = omega arith
length-le-body_size (p ∷ ps) = omega (arith, body_size-cons p ps, length-le-body_size ps)

-- Where the memory begins with the frame of at least one parameter, of a type below 65,536 and with
-- a body shorter than 16,379 bytes, parsing succeeds and leaves exactly that frame in the object:
-- its version, type and bytes, and a position for each parameter and for the end.
pub parse_message-encode_frame :
    (m : CommonMessage) (message : Buffer) (version message_type : ℕ) (p : Parameter)
    (ps : List Parameter)
    → message_type < 65536
    → All IsParameter (p ∷ ps)
    → body_size (p ∷ ps) < 16379
    → slice message 0 (5 + body_size (p ∷ ps)) ≡ encode_frame version message_type (p ∷ ps)
    → parse_message m message ≡ (parsed m message version message_type (p ∷ ps), true)
unfolding parse_message
parse_message-encode_frame m message version t p ps ht ok short h =
    rw (head, scanned, parse_message) (rw (lt→leb _ _ short, ==_refl (5 + n)))
  where
    n : ℕ
    n = body_size (p ∷ ps)

    holds : Holds version t (p ∷ ps) message
    holds = encode_frame-Holds version t (p ∷ ps) message h

    head :
        unpack_message_head message
        ≡ record { protocol_version = version; message_type = t; message_length = n }
    head = unpack_message_head-Holds version t (p ∷ ps) message ht (omega (arith, short)) holds

    scanned : scan_body message n ≡ record { positions = ends 5 (p ∷ ps); byte_count = 5 + n }
    scanned = scan_body-eq message n _ (
        scan_parameters-ends ps p (suc n) message n 5 ok holds.body refl
          (omega (arith, length-le-body_size (p ∷ ps))))

-- The two tests of `parse_message` that an accepted message passes.
accepted_tests :
    (m : CommonMessage) (message : Buffer) (s : Scan)
    → scan_body message (unpack_message_head message).message_length ≡ s
    → (parse_message m message).1 ≡ true
    → ((unpack_message_head message).message_length < 16379)
      × (5 + (unpack_message_head message).message_length ≡ s.byte_count)
unfolding parse_message
accepted_tests m message s e h = ground arith

-- The head of any message, written as a frame's head.
encode_head-unpack_message_head :
    (b : Buffer)
    → ((j : ℕ) → IsByte (b j))
    → let h = unpack_message_head b in
      slice b 0 5 ≡ encode_head h.protocol_version h.message_type h.message_length
unfolding unpack_message_head slice encode_head
encode_head-unpack_message_head b bytes = ground (arith, bytes 1, bytes 2, bytes 3, bytes 4)

-- The parser accepts nothing but frames.
parse_message-IsFrame :
    (m : CommonMessage) (message : Buffer)
    → ((j : ℕ) → IsByte (message j))
    → (parse_message m message).1 ≡ true
    → IsFrame message
parse_message-IsFrame m message bytes accepted =
    let body = (unpack_message_head message).message_length in
    let (s, e) = scan_parameters_total (suc body) message body 5 (omega arith) (omega arith) in
    let read = scan_parameters-Read message bytes body (suc body) 5 s (omega arith) e in
    let tests = accepted_tests m message s (scan_body-eq message body s e) accepted in
    let size : body ≡ body_size (read.first ∷ read.others) =
      omega (arith, tests.1, read.byte_count) in
    record {
      version = (unpack_message_head message).protocol_version;
      message_type = (unpack_message_head message).message_type;
      first = read.first;
      others = read.others;
      type_fits = unfold unpack_message_head in omega arith;
      valid = read.valid;
      short = omega (arith, tests.0, size);
      bytes = Holds-encode_frame _ _ _ message (record {
        head =
            encode_head-unpack_message_head message bytes
            ∙ ap
                (encode_head (unpack_message_head message).protocol_version
                  (unpack_message_head message).message_type)
                size;
        body = read.bytes;
      });
    }

-- `parse_message` accepts exactly the frames: on a memory of bytes it returns true if and only if
-- the memory begins with the frame of at least one parameter whose body is shorter than 16379
-- bytes.
pub parse_message_accepts_iff :
    (m : CommonMessage) (message : Buffer)
    → ((j : ℕ) → IsByte (message j))
    → ((parse_message m message).1 ≡ true) ↔ IsFrame message
parse_message_accepts_iff m message bytes = (
  parse_message-IsFrame m message bytes,
  λ f.
      ap (λ (r : CommonMessage × Bool). r.1)
        (parse_message-encode_frame m message f.version f.message_type f.first f.others f.type_fits
          f.valid f.short f.bytes),
)
