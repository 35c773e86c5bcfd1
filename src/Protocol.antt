-- ===== src/Protocol.antt =====
-- protocol.h and protocol.cpp: the byte layout of messages, and the functions that write one
-- and take its pieces apart. A pointer is the memory from its target on; a value behind a
-- `const` pointer does not overlap the buffer that is written.
pub mod Frame
pub mod Append
pub mod Package
pub mod Arguments
use audio_server.Common.{
  ℕ, zero, suc, ◌+◌, ◌-◌, ◌*◌, ◌/◌, ◌≡◌, Bool, true, false, Option, none, some, List, [], ◌∷◌, ◌==◌,
  if◌then◌else◌,
}
use audio_server.Common.Words.{u8, u16, u32}
use audio_server.Common.Buffers.{Buffer, shift, store}

abbrev pub message_head_length : ℕ
message_head_length = 5

abbrev pub parameter_head_length : ℕ
parameter_head_length = 4

-- The buffer after a call, and the count of bytes that the call returns.
pub record Packed : Type 0 where
  pub bytes : Buffer
  pub size : ℕ

unfoldable pub package_message_head : Buffer → ℕ → ℕ → Packed
package_message_head output_buffer protocol_version message_type = record {
  bytes = store 4 0 (
      store 3 0 (
        store 2 (u8 message_type)
          (store 1 (u8 (message_type / 256)) (store 0 protocol_version output_buffer))));
  size = message_head_length;
}

pub record Head : Type 0 where
  pub protocol_version : ℕ
  pub message_type : ℕ
  pub message_length : ℕ

unfoldable pub unpack_message_head : Buffer → Head
unpack_message_head input_buffer = record {
  protocol_version = input_buffer 0;
  message_type = u16 (input_buffer 1 * 256 + input_buffer 2);
  message_length = u16 (input_buffer 3 * 256 + input_buffer 4);
}

-- The output buffer with the variable `length`, an `unsigned short`.
pub record Writer : Type 0 where
  pub bytes : Buffer
  pub length : ℕ

-- `output_buffer[length++] = byte`.
unfoldable pub append_byte : ℕ → Writer → Writer
append_byte byte w = record { bytes = store w.length byte w.bytes; length = u16 (w.length + 1) }

-- The loop at index `i`, with `left` rounds left.
unfoldable pub append_value : ℕ → ℕ → Buffer → Writer → Writer
append_value zero i parameter_value w = w
append_value (suc left) i parameter_value w =
    append_value left (i + 1) parameter_value (append_byte (parameter_value i) w)

unfoldable pub append_parameter_head : ℕ → ℕ → Writer → Writer
unfolding append_byte
append_parameter_head parameter_type parameter_length w = append_byte (u8 parameter_length) (
    append_byte (u8 (parameter_length / 256))
      (append_byte (u8 parameter_type) (append_byte (u8 (parameter_type / 256)) w)))

-- `length` as the current end of the message that the buffer holds.
unfoldable pub message_end : Buffer → Writer
message_end output_buffer = record {
  bytes = output_buffer;
  length = u16 (output_buffer 3 * 256 + output_buffer 4 + message_head_length);
}

-- The new length of the body is stored into the head.
unfoldable pub store_length : Writer → Packed
store_length w =
    let length = u16 (w.length + 65536 - message_head_length) in
    record {
      bytes = store 4 (u8 length) (store 3 (u8 (length / 256)) w.bytes);
      size = message_head_length + length;
    }

unfoldable pub package_message_parameter_content : Buffer → ℕ → Buffer → ℕ → Packed
unfolding message_end store_length
package_message_parameter_content output_buffer parameter_type parameter_value parameter_length =
    store_length (
      append_value parameter_length 0 parameter_value
        (append_parameter_head parameter_type parameter_length (message_end output_buffer)))

pub record ParameterHead : Type 0 where
  pub parameter_type : ℕ
  pub parameter_length : ℕ
  pub size : ℕ

unfoldable pub unpack_parameter : Buffer → ParameterHead
unpack_parameter input_buffer =
    let parameter_length = u16 (input_buffer 2 * 256 + input_buffer 3) in
    record {
      parameter_type = u16 (input_buffer 0 * 256 + input_buffer 1);
      parameter_length = parameter_length;
      size = parameter_length + 4;
    }

-- The types at which the source instantiates `unpack_parameter_t`. A signed value is its bit
-- pattern, and a shift out of the top of an `int` wraps.
pub data Width : Type 0 where
  uchar ushort short uint int : Width

abbrev pub two_bytes : Buffer → ℕ
two_bytes value = u16 (value 0 * 256 + value 1)

abbrev pub four_bytes : Buffer → ℕ
four_bytes value = u32 (value 0 * 16777216 + value 1 * 65536 + value 2 * 256 + value 3)

unfoldable pub read_value : Width → Buffer → ℕ
read_value uchar value = value 0
read_value ushort value = two_bytes value
read_value short value = two_bytes value
read_value uint value = four_bytes value
read_value int value = four_bytes value

unfoldable pub unpack_parameter_t : Width → Buffer → ℕ → Option ℕ
unpack_parameter_t width input_buffer parameter_type =
    if (unpack_parameter input_buffer).parameter_type == parameter_type
    then some (read_value width (shift parameter_head_length input_buffer))
    else none

-- The arguments `t, parameter_length` of `package_message_common`, by the type of `t`.
pub data ParameterValue : Type 0 where
  uchar_value ushort_value short_value uint_value int_value : ℕ → ParameterValue
  bytes_value : Buffer → ℕ → ParameterValue

-- `unsigned char cache[8]`, of which as many bytes as the width has are written.
unfoldable pub cache_two : ℕ → Buffer
cache_two value = store 1 (u8 value) (store 0 (u8 (value / 256)) (λ _. 0))

unfoldable pub cache_four : ℕ → Buffer
cache_four value = store 3 (u8 value) (
    store 2 (u8 (value / 256))
      (store 1 (u8 (value / 65536)) (store 0 (u8 (value / 16777216)) (λ _. 0))))

unfoldable pub package_message_parameter_template : Buffer → ℕ → ParameterValue → Packed
package_message_parameter_template b parameter_type (uchar_value v) =
    package_message_parameter_content b parameter_type (λ _. v) 1
package_message_parameter_template b parameter_type (bytes_value v n) =
    package_message_parameter_content b parameter_type v n
package_message_parameter_template b parameter_type (ushort_value v) =
    package_message_parameter_content b parameter_type (cache_two v) 2
package_message_parameter_template b parameter_type (short_value v) =
    package_message_parameter_content b parameter_type (cache_two v) 2
package_message_parameter_template b parameter_type (uint_value v) =
    package_message_parameter_content b parameter_type (cache_four v) 4
package_message_parameter_template b parameter_type (int_value v) =
    package_message_parameter_content b parameter_type (cache_four v) 4

pub record Argument : Type 0 where
  pub parameter_type : ℕ
  pub value : ParameterValue

-- The calls after the head, each on the buffer that the one before left; the last size is
-- returned.
unfoldable pub package_parameters : Packed → List Argument → Packed
package_parameters p [] = p
package_parameters p (a ∷ rest) =
    package_parameters (package_message_parameter_template p.bytes a.parameter_type a.value) rest

-- `package_message_common`, whose overloads take 1 to 8, 10 and 14 parameters.
unfoldable pub package_message_common : Buffer → ℕ → ℕ → List Argument → Packed
package_message_common output_buffer protocol_version message_type arguments =
    package_parameters (package_message_head output_buffer protocol_version message_type) arguments
