-- ===== src/Interface/Sent.antt =====
-- A message that `package_message_common` wrote, as the receiver's parser sees it.
use audio_server.Common.{ℕ, ◌+◌, ◌<◌, ◌≡◌, ap, ◌∙◌, sym, List, ◌∷◌, arith, All}
use audio_server.Common.Buffers.{Buffer, slice}
use audio_server.Protocol.{Packed, Argument, package_message_common}
use audio_server.Protocol.Frame.{IsParameter, encode_frame, body_size, length-encode_frame}
use audio_server.Protocol.Arguments.{
  parameter_of, parameters_of, package_message_common-encode_frame,
}
use audio_server.Message.Parse.{IsFrame}

-- The receiver's memory begins with the bytes of the message; what follows them is arbitrary.
abbrev pub Received : Packed → Buffer → Type 0
Received r input = slice input 0 r.size ≡ slice r.bytes 0 r.size

module _ (b : Buffer) (version message_type : ℕ) (a : Argument) (as' : List Argument)
    (input : Buffer) (type_fits : message_type < 65536)
    (valid : All IsParameter (parameters_of (a ∷ as')))
    (short : body_size (parameters_of (a ∷ as')) < 16379)
    (received : Received (package_message_common b version message_type (a ∷ as')) input) where
  pub sent_bytes :
      slice input 0 (5 + body_size (parameters_of (a ∷ as')))
      ≡ encode_frame version message_type (parameters_of (a ∷ as'))
  sent_bytes =
      let wrote =
        package_message_common-encode_frame b version message_type (a ∷ as')
          (omega (arith, short)) in
      let size = wrote.1 ∙ length-encode_frame version message_type (parameters_of (a ∷ as')) in
      ap (slice input 0) (sym size) ∙ received ∙ wrote.0

  abbrev pub sent_frame : IsFrame input
  sent_frame = record {
    version = version;
    message_type = message_type;
    first = parameter_of a;
    others = parameters_of as';
    type_fits = type_fits;
    valid = valid;
    short = short;
    bytes = sent_bytes;
  }
