-- ===== src/Message.antt =====
-- The class `CommonMessage` of protocol.h and protocol.cpp: a received message with the positions
-- of its parameters. The array `message_data_` is a buffer, and the vector `parameter_positions_`
-- a list. No exception reaches the `catch` of `parse_message`: only an allocation could throw.
pub mod Loop
pub mod Sound
pub mod Parse
pub mod Lookup
pub mod Search
pub mod Bounds
pub mod Getters
use mathlib.Core.Option
use audio_server.Common.{
  ℕ, zero, suc, ◌+◌, ◌-◌, ◌*◌, Bool, true, false, Option, none, some, List, [], ◌∷◌, ltb, leb, ◌==◌,
  if◌then◌else◌,
}
use audio_server.Common.Buffers.{Buffer, shift, copy_bytes, slice}
use audio_server.Protocol.{
  message_head_length, parameter_head_length, unpack_message_head, unpack_parameter, Width,
  unpack_parameter_t,
}

abbrev pub max_message_length : ℕ
max_message_length = 16 * 1024

abbrev pub max_parameter_length : ℕ
max_parameter_length = 8 * 1024

-- `message_data_` has the bytes 0 to 16,383 of `message_data`. The other bytes are what follows the
-- array in memory: a read of them is undefined in the source, and nothing is said of their values.
pub record CommonMessage : Type 0 where
  pub message_body_length : ℕ
  pub message_data : Buffer
  pub message_type : ℕ
  pub protocol_version : ℕ
  pub parameter_positions : List ℕ

-- The constructor, on storage whose other members keep whatever stood there.
unfoldable pub common_message : CommonMessage → CommonMessage
common_message storage = record storage { message_type = 0; parameter_positions = [] }

-- Both parsers begin by `unpack_message_head` into the members.
unfoldable pub take_head : CommonMessage → Buffer → CommonMessage
take_head m message =
    let head = unpack_message_head message in
    record m {
      protocol_version = head.protocol_version;
      message_type = head.message_type;
      message_body_length = head.message_length;
    }

unfoldable pub parse_message_head : CommonMessage → Buffer → CommonMessage × Bool
unfolding take_head
parse_message_head m message_head =
    let m' = take_head m message_head in
    (m', ltb m'.message_body_length (max_message_length - message_head_length))

-- The positions that the loop pushes, and `byte_count` behind it.
pub record Scan : Type 0 where
  pub positions : List ℕ
  pub byte_count : ℕ

abbrev pub push_position : ℕ → Scan → Scan
push_position position s = record s { positions = position ∷ s.positions }

-- The `do` loop of `parse_message`; `none` means that the fuel ran out.
unfoldable pub scan_parameters : ℕ → Buffer → ℕ → ℕ → Option Scan
scan_parameters zero message body_length byte_count = none
scan_parameters (suc fuel) message body_length byte_count =
    let next = byte_count + (unpack_parameter (shift byte_count message)).size in
    elim (ltb (next - message_head_length) body_length) [
      | true ↦ Option.map (push_position next) (scan_parameters fuel message body_length next)
      | false ↦ some (record { positions = next ∷ []; byte_count = next })
    ]

-- Every round takes four bytes at least, so one round more than the body has bytes is enough.
unfoldable pub scan_body : Buffer → ℕ → Scan
unfolding scan_parameters
scan_body message body_length =
    Option.get_or (scan_parameters (suc body_length) message body_length message_head_length)
      (record { positions = []; byte_count = 0 })

unfoldable pub parse_message : CommonMessage → Buffer → CommonMessage × Bool
unfolding take_head
parse_message m message =
    let m' = take_head m message in
    if leb (max_message_length - message_head_length) m'.message_body_length
    then (m', false)
    else (let s = scan_body message m'.message_body_length in
        let scanned : CommonMessage = record m' {
          parameter_positions = message_head_length ∷ s.positions;
        } in
        if message_head_length + m'.message_body_length == s.byte_count
        then (
          record scanned { message_data = copy_bytes s.byte_count message m'.message_data },
          true,
        )
        else (scanned, false))

-- The loop of `get_parameter_value` over the positions.
unfoldable pub find_value : Width → Buffer → ℕ → List ℕ → Option ℕ
find_value width message_data parameter_type [] = none
find_value width message_data parameter_type (position ∷ rest) =
    elim (unpack_parameter_t width (shift position message_data) parameter_type) [
      | some value ↦ some value
      | none ↦ find_value width message_data parameter_type rest
    ]

unfoldable pub get_parameter_value : Width → CommonMessage → ℕ → Option ℕ
unfolding find_value
get_parameter_value width m parameter_type =
    find_value width m.message_data parameter_type m.parameter_positions

-- The loop of `get_parameter_content` at `count`. The result is the `content_size` bytes that are
-- copied to `content`.
unfoldable pub find_content : Buffer → ℕ → ℕ → ℕ → List ℕ → Option (List ℕ)
find_content message_data parameter_type index count [] = none
find_content message_data parameter_type index count (position ∷ rest) =
    let current = unpack_parameter (shift position message_data) in
    let content = slice message_data (position + parameter_head_length) current.parameter_length in
    let counted = find_content message_data parameter_type index (count + 1) rest in
    let skipped = find_content message_data parameter_type index count rest in
    if ltb max_parameter_length current.parameter_length
    then none
    else (if parameter_type == current.parameter_type
        then (if count == index then some content else counted)
        else skipped)

unfoldable pub get_parameter_content : CommonMessage → ℕ → ℕ → Option (List ℕ)
unfolding find_content
get_parameter_content m parameter_type index =
    find_content m.message_data parameter_type index 0 m.parameter_positions
