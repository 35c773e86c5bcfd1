-- ===== src/Protocol/Arguments.antt =====
-- The templates and `package_message_common` against the frame format.
use mathlib.Core.List.{append-nil, append_assoc}
use audio_server.Common.{
  ℕ, ◌+◌, ◌/◌, ◌≤◌, ◌<◌, ◌≡◌, refl, ap, ◌∙◌, sym, subst, List, [], ◌∷◌, ◌++◌, arith, length,
}
use audio_server.Common.Words.{u8}
use audio_server.Common.Buffers.{Buffer, store, slice}
use audio_server.Protocol.{
  Packed, package_message_head, package_message_parameter_template, package_parameters,
  package_message_common, ParameterValue, uchar_value, ushort_value, short_value, uint_value,
  int_value, bytes_value, Argument, cache_two, cache_four,
}
use audio_server.Protocol.Frame.{
  Parameter, parameter, encode_parameters, body_size, encode_frame, body_size-append,
  body_size-snoc, length-encode_frame,
}
use audio_server.Protocol.Package.{
  Holds, Holds-encode_frame, package_message_head-Holds, package_message_head_outside, Appended,
  package_message_parameter_content-Appended,
}

-- The bytes that a value is written as.
unfoldable pub value_content : ParameterValue → List ℕ
value_content (uchar_value v) = v ∷ []
value_content (ushort_value v) = u8 (v / 256) ∷ u8 v ∷ []
value_content (short_value v) = u8 (v / 256) ∷ u8 v ∷ []
value_content (uint_value v) = u8 (v / 16777216) ∷ u8 (v / 65536) ∷ u8 (v / 256) ∷ u8 v ∷ []
value_content (int_value v) = u8 (v / 16777216) ∷ u8 (v / 65536) ∷ u8 (v / 256) ∷ u8 v ∷ []
value_content (bytes_value v n) = slice v 0 n

abbrev pub parameter_of : Argument → Parameter
parameter_of a = parameter a.parameter_type (value_content a.value)

abbrev pub parameters_of : List Argument → List Parameter
parameters_of [] = []
parameters_of (a ∷ rest) = parameter_of a ∷ parameters_of rest

package_message_parameter_template-Appended :
    (version message_type : ℕ) (ps : List Parameter) (b : Buffer) (kind : ℕ)
    (value : ParameterValue)
    → Holds version message_type ps b
    → 5 + body_size (ps ++ parameter kind (value_content value) ∷ []) < 65536
    → Appended version message_type
        (ps ++ parameter kind (value_content value) ∷ [])
        b
        (package_message_parameter_template b kind value)
unfolding package_message_parameter_template value_content slice cache_two cache_four store
package_message_parameter_template-Appended version t ps b kind (uchar_value v) holds fits =
    package_message_parameter_content-Appended version t ps b holds kind (λ _. v) 1 fits
package_message_parameter_template-Appended version t ps b kind (ushort_value v) holds fits =
    package_message_parameter_content-Appended version t ps b holds kind (cache_two v) 2 fits
package_message_parameter_template-Appended version t ps b kind (short_value v) holds fits =
    package_message_parameter_content-Appended version t ps b holds kind (cache_two v) 2 fits
package_message_parameter_template-Appended version t ps b kind (uint_value v) holds fits =
    package_message_parameter_content-Appended version t ps b holds kind (cache_four v) 4 fits
package_message_parameter_template-Appended version t ps b kind (int_value v) holds fits =
    package_message_parameter_content-Appended version t ps b holds kind (cache_four v) 4 fits
package_message_parameter_template-Appended version t ps b kind (bytes_value v n) holds fits =
    package_message_parameter_content-Appended version t ps b holds kind v n fits

-- Each further argument appends its parameter.
package_parameters-Appended :
    (version message_type : ℕ) (b : Buffer) (rest : List Argument) (ps : List Parameter)
    (p : Packed)
    → Appended version message_type ps b p
    → 5 + body_size (ps ++ parameters_of rest) < 65536
    → Appended version message_type (ps ++ parameters_of rest) b (package_parameters p rest)
unfolding package_parameters
package_parameters-Appended version t b [] ps p done fits =
    subst (λ qs. Appended version t qs b p) (sym (append-nil ps)) done
package_parameters-Appended version t b (a ∷ rest) ps p done fits =
    subst (λ qs. Appended version t qs b (package_parameters r rest)) regroup
      (package_parameters-Appended version t b rest (ps ++ parameter_of a ∷ []) r both
        (rw regroup fits))
  where
    regroup : (ps ++ parameter_of a ∷ []) ++ parameters_of rest ≡ ps ++ parameters_of (a ∷ rest)
    regroup = append_assoc ps (parameter_of a ∷ []) (parameters_of rest)

    r : Packed
    r = package_message_parameter_template p.bytes a.parameter_type a.value

    room : 5 + body_size (ps ++ parameter_of a ∷ []) < 65536
    room = omega (
      arith,
      fits,
      ap body_size regroup,
      body_size-append (ps ++ parameter_of a ∷ []) (parameters_of rest),
    )

    one : Appended version t (ps ++ parameter_of a ∷ []) p.bytes r
    one =
        package_message_parameter_template-Appended version t ps p.bytes a.parameter_type a.value
          done.holds room

    both : Appended version t (ps ++ parameter_of a ∷ []) b r
    both = record {
      holds = one.holds;
      size = one.size;
      outside = λ j h.
          one.outside j h ∙ done.outside j (omega (arith, h, body_size-snoc ps (parameter_of a)));
    }

pub package_message_common-Appended :
    (b : Buffer) (version message_type : ℕ) (arguments : List Argument)
    → 5 + body_size (parameters_of arguments) < 65536
    → Appended version message_type
        (parameters_of arguments)
        b
        (package_message_common b version message_type arguments)
unfolding package_message_common package_message_head body_size encode_parameters
package_message_common-Appended b version t arguments fits =
    package_parameters-Appended version t b arguments [] (package_message_head b version t)
      (record {
        holds = package_message_head-Holds b version t;
        size = refl;
        outside = package_message_head_outside b version t;
      })
      fits

-- `package_message_common` writes the frame of its arguments at the start of the buffer, returns
-- the frame's size, and leaves every byte behind the frame alone, for any message type, version
-- and arguments whose frame is shorter than 65536 bytes.
pub package_message_common-encode_frame :
    (b : Buffer) (version message_type : ℕ) (arguments : List Argument)
    → 5 + body_size (parameters_of arguments) < 65536
    → let r = package_message_common b version message_type arguments in
      (slice r.bytes 0 r.size ≡ encode_frame version message_type (parameters_of arguments))
      × (r.size ≡ length (encode_frame version message_type (parameters_of arguments)))
      × ((j : ℕ) → r.size ≤ j → r.bytes j ≡ b j)
package_message_common-encode_frame b version t arguments fits =
    let a = package_message_common-Appended b version t arguments fits in
    let ps = parameters_of arguments in
    (
      ap (slice _ 0) a.size ∙ Holds-encode_frame version t ps _ a.holds,
      a.size ∙ sym (length-encode_frame version t ps),
      λ j h. a.outside j (rw a.size at h),
    )
