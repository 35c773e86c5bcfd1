-- ===== src/Message/Getters.antt =====
-- The getters of `CommonMessage` on an object that has just parsed a frame.
use mathlib.Core.Path.{fun_ext}
use audio_server.Common.{
  ℕ, ◌+◌, ◌≤◌, ◌≡◌, ap, ◌∙◌, true, some, List, [], ◌∷◌, arith, length, All, take,
}
use audio_server.Common.Buffers.{
  Buffer, shift, slice, slice-copy_bytes, copy_bytes, copy_bytes_outside,
}
use audio_server.Protocol.{Width, unpack_parameter_t}
use audio_server.Protocol.Frame.{Parameter, encode_parameters, body_size}
use audio_server.Message.{CommonMessage, parse_message, get_parameter_value, get_parameter_content}
use audio_server.Message.Parse.{IsFrame, parsed, parse_message-encode_frame, encode_frame-Holds}
use audio_server.Message.Lookup.{contents_of, big_endian, size_of}
use audio_server.Message.Search.{
  nth, IsShort, find_value-found, find_value-missing, find_content-nth,
}

module _ (m : CommonMessage) (message : Buffer) (f : IsFrame message) where
  -- The parameters of the frame.
  abbrev pub parameters : List Parameter
  parameters = f.first ∷ f.others

  pub parse_message-IsFrame-eq :
      parse_message m message ≡ (parsed m message f.version f.message_type parameters, true)
  parse_message-IsFrame-eq =
      parse_message-encode_frame m message f.version f.message_type f.first f.others f.type_fits
        f.valid f.short f.bytes

  abbrev object : CommonMessage
  object = (parse_message m message).0

  parsed_body :
      slice (copy_bytes (5 + body_size parameters) message m.message_data) 5 (body_size parameters)
      ≡ encode_parameters parameters
  parsed_body =
      slice-copy_bytes _ message m.message_data 5 (body_size parameters) (omega arith)
      ∙ (encode_frame-Holds f.version f.message_type parameters message f.bytes).body

  -- After a frame is parsed, `get_parameter_value` returns the first parameter of the type: the
  -- number that its first bytes are, as many as the number's type has. The parameter must have
  -- that many.
  pub get_parameter_value-parse_message :
      (width : Width) (kind : ℕ) (c : List ℕ) (cs : List (List ℕ))
      → contents_of kind parameters ≡ c ∷ cs
      → size_of width ≤ length c
      → get_parameter_value width (parse_message m message).0 kind
        ≡ some (big_endian 0 (take (size_of width) c))
  unfolding get_parameter_value
  get_parameter_value-parse_message width kind c cs e k =
      rw parse_message-IsFrame-eq
        (find_value-found width _ kind parameters 5 c cs f.valid parsed_body e k)

  -- For a type that the frame does not have, if a head of four bytes and a number of the width
  -- behind the frame are still inside the 16,384 bytes of `message_data_`, `get_parameter_value`
  -- answers from the bytes that an earlier message left in the object behind the end of this one:
  -- it reports a parameter exactly when those bytes look like one of the type.
  pub get_parameter_value_stale :
      (width : Width) (kind : ℕ)
      → contents_of kind parameters ≡ []
      → 5 + body_size parameters + 4 + size_of width ≤ 16384
      → get_parameter_value width (parse_message m message).0 kind
        ≡ unpack_parameter_t width (shift (5 + body_size parameters) m.message_data) kind
  unfolding get_parameter_value
  get_parameter_value_stale width kind e inside = rw parse_message-IsFrame-eq (
      find_value-missing width _ kind parameters 5 f.valid parsed_body e
      ∙ ap (λ b. unpack_parameter_t width b kind) old_bytes)
    where
      old_bytes :
          shift
            (5 + body_size parameters)
            (copy_bytes (5 + body_size parameters) message m.message_data)
          ≡ shift (5 + body_size parameters) m.message_data
      old_bytes = fun_ext (λ j. copy_bytes_outside _ message m.message_data _ (omega arith))

  -- After a frame whose parameters have at most 8192 bytes each is parsed,
  -- `get_parameter_content` returns the content of the parameter of the type at the index.
  pub get_parameter_content-parse_message :
      (kind index : ℕ) (c : List ℕ)
      → All IsShort parameters
      → nth index (contents_of kind parameters) ≡ some c
      → get_parameter_content (parse_message m message).0 kind index ≡ some c
  unfolding get_parameter_content
  get_parameter_content-parse_message kind index c small e = rw parse_message-IsFrame-eq (
      find_content-nth _ kind index parameters 5 0 index c f.valid small parsed_body (omega arith)
        e)
