-- ===== src/Message/Loop.antt =====
-- The `do` loop of `parse_message` in protocol.cpp, on the bytes of a frame and on any bytes.
use mathlib.Core.Option
use native.Mathlib.Decide.{dec_lt}
use native.Mathlib.Nat.{add-zero}
use audio_server.Common.{
  ℕ, zero, suc, ◌+◌, ◌-◌, ◌/◌, ◌≤◌, ◌<◌, ◌≡◌, refl, ap, ◌∙◌, sym, subst, some, List, [], ◌∷◌, arith,
  length, All, lt→ltb, le→ltb,
}
use audio_server.Common.Words.{u8}
use audio_server.Common.Buffers.{Buffer, shift, slice, slice_four}
use audio_server.Protocol.{unpack_parameter, ParameterHead}
use audio_server.Protocol.Frame.{
  Parameter, IsParameter, encode_parameter, encode_parameters, body_size, body_size-cons,
  body_size-nil, slice-encode_parameters,
}
use audio_server.Message.{Scan, push_position, scan_parameters}

-- One round of the loop, by the test behind it.
abbrev pub Round : ℕ → Buffer → ℕ → ℕ → ℕ → Type 0
Round fuel message body n next =
    (next - 5 < body
      → scan_parameters (suc fuel) message body n
        ≡ Option.map (push_position next) (scan_parameters fuel message body next))
    × (body ≤ next - 5
        → scan_parameters (suc fuel) message body n
          ≡ some (record { positions = next ∷ []; byte_count = next }))

pub scan-Round :
    (fuel : ℕ) (message : Buffer) (body n next : ℕ)
    → n + (unpack_parameter (shift n message)).size ≡ next
    → Round fuel message body n next
unfolding scan_parameters
scan-Round fuel message body n next step =
    subst (Round fuel message body n) step
      (λ more. rw (lt→ltb _ _ more, scan_parameters), λ last. rw (le→ltb _ _ last, scan_parameters))

unpack_parameter-size : (b : Buffer) → 4 ≤ (unpack_parameter b).size
unfolding unpack_parameter
unpack_parameter-size b = omega arith

-- From a position within the body or at its end, the loop ends if it has more fuel than the body
-- has bytes left.
pub scan_parameters_total :
    (fuel : ℕ) (message : Buffer) (body n : ℕ)
    → n ≤ 5 + body
    → 5 + body < n + fuel
    → (s : Scan) × (scan_parameters fuel message body n ≡ some s)
scan_parameters_total zero message body n h k = absurd (omega arith)
scan_parameters_total (suc fuel) message body n h k =
    let next = n + (unpack_parameter (shift n message)).size in
    let size = unpack_parameter-size (shift n message) in
    elim (dec_lt (next - 5) body) [
      | yes more ↦
          let (s, e) =
            scan_parameters_total fuel message body next (omega (arith, more))
              (omega (arith, size)) in
          (
            push_position next s,
            (scan-Round fuel message body n next refl).0 more
                ∙ ap (Option.map (push_position next)) e,
          )
      | no last ↦ (
        record { positions = next ∷ []; byte_count = next },
        (scan-Round fuel message body n next refl).1 (omega arith),
      )
    ]

-- The positions behind each of the parameters that stand from `n` on.
abbrev pub ends : ℕ → List Parameter → List ℕ
ends n [] = []
ends n (p ∷ ps) = (n + (length p.content + 4)) ∷ ends (n + (length p.content + 4)) ps

-- The four bytes of a parameter's head, as numbers.
unpack_parameter_bytes :
    (b : Buffer) (n kind size : ℕ)
    → kind < 65536
    → size < 65536
    → b n ≡ u8 (kind / 256)
    → b (n + 1) ≡ u8 kind
    → b (n + 2) ≡ u8 (size / 256)
    → b (n + 3) ≡ u8 size
    → unpack_parameter (shift n b)
      ≡ record { parameter_type = kind; parameter_length = size; size = size + 4 }
unfolding unpack_parameter
unpack_parameter_bytes b n kind size hk hs e0 e1 e2 e3 =
    rw (ap b (add-zero n), e0, e1, e2, e3) (ground arith)

-- A parameter is read back from where it is written.
pub unpack_parameter-encode_parameter :
    (b : Buffer) (n : ℕ) (p : Parameter)
    → IsParameter p
    → slice b n (length p.content + 4) ≡ encode_parameter p
    → unpack_parameter (shift n b) ≡ record {
      parameter_type = p.kind;
      parameter_length = length p.content;
      size = length p.content + 4;
    }
unfolding encode_parameter
unpack_parameter-encode_parameter b n p ok h =
    let e = sym (slice_four b n (length p.content)) ∙ h in
    unpack_parameter_bytes b n p.kind (length p.content) ok.0 ok.1 (ground (arith, e))
      (ground (arith, e)) (ground (arith, e)) (ground (arith, e))

-- The loop finds every parameter of a body that is a sequence of parameters.
pub scan_parameters-ends :
    (ps : List Parameter) (p : Parameter) (fuel : ℕ) (message : Buffer) (body n : ℕ)
    → All IsParameter (p ∷ ps)
    → slice message n (body_size (p ∷ ps)) ≡ encode_parameters (p ∷ ps)
    → 5 + body ≡ n + body_size (p ∷ ps)
    → length ps < fuel
    → scan_parameters fuel message body n
      ≡ some (record { positions = ends n (p ∷ ps); byte_count = n + body_size (p ∷ ps) })
scan_parameters-ends ps p zero message body n ok h e k = absurd (omega arith)
scan_parameters-ends [] p (suc fuel) message body n ok h e k =
    let read = (slice-encode_parameters message n p [] h).0 in
    let here =
      ap (λ (r : ParameterHead). n + r.size)
        (unpack_parameter-encode_parameter message n p ok.0 read) in
    (scan-Round fuel message body n _ here).1 (omega (arith, e, body_size-cons p [], body_size-nil))
    ∙ ap
        (λ (c : ℕ). some (record { positions = (n + (length p.content + 4)) ∷ []; byte_count = c }))
        (omega (arith, body_size-cons p [], body_size-nil))
scan_parameters-ends (q ∷ ps) p (suc fuel) message body n ok h e k =
    let (read, others) = slice-encode_parameters message n p (q ∷ ps) h in
    let here =
      ap (λ (r : ParameterHead). n + r.size)
        (unpack_parameter-encode_parameter message n p ok.0 read) in
    let next = n + (length p.content + 4) in
    let rest = body_size-cons p (q ∷ ps) in
    (scan-Round fuel message body n next here).0 (omega (arith, e, rest, body_size-cons q ps))
    ∙ ap (Option.map (push_position next)) (
        scan_parameters-ends ps q fuel message body next ok.1 others (omega (arith, e, rest))
          (omega (arith, k)))
    ∙ ap (λ (c : ℕ). some (record { positions = next ∷ ends next (q ∷ ps); byte_count = c }))
        (omega (arith, rest))
