-- ===== src/Protocol/Frame.antt =====
-- What the bytes of a message mean: a frame is a head of five bytes and a body of parameters,
-- each with its type, its length and its content, all numbers big-endian. This is the contract
-- between the writers of protocol.cpp and its parser.
use audio_server.Common.{
  ℕ, ◌+◌, ◌/◌, ◌<◌, ◌≡◌, List, [], ◌∷◌, ◌++◌, arith, length, length-append, All, ap, ap₂, ◌∙◌, refl,
}
use audio_server.Common.{append-injective}
use audio_server.Common.Buffers.{Buffer, slice, slice-append, length-slice}
use audio_server.Common.Words.{u8, IsByte}
use mathlib.Core.List.{append-nil, append_assoc}
use mathlib.Core.Path.{sym}

pub record Parameter : Type 0 where
  pub kind : ℕ
  pub content : List ℕ

abbrev pub parameter : ℕ → List ℕ → Parameter
parameter kind content = record { kind = kind; content = content }

abbrev pub IsParameter : Parameter → Type 0
IsParameter p = (p.kind < 65536) × (length p.content < 65536) × All IsByte p.content

unfoldable pub encode_parameter : Parameter → List ℕ
encode_parameter p =
    u8 (p.kind / 256) ∷ u8 p.kind ∷ u8 (length p.content / 256) ∷ u8 (length p.content) ∷ p.content

unfoldable pub encode_parameters : List Parameter → List ℕ
encode_parameters [] = []
encode_parameters (p ∷ ps) = encode_parameter p ++ encode_parameters ps

unfoldable pub body_size : List Parameter → ℕ
body_size ps = length (encode_parameters ps)

unfoldable pub encode_head : ℕ → ℕ → ℕ → List ℕ
encode_head version message_type size =
    version ∷ u8 (message_type / 256) ∷ u8 message_type ∷ u8 (size / 256) ∷ u8 size ∷ []

unfoldable pub encode_frame : ℕ → ℕ → List Parameter → List ℕ
encode_frame version message_type ps =
    encode_head version message_type (body_size ps) ++ encode_parameters ps

pub length-encode_parameter : (p : Parameter) → length (encode_parameter p) ≡ length p.content + 4
unfolding encode_parameter
length-encode_parameter p = omega arith

pub body_size-nil : body_size [] ≡ 0
unfolding body_size encode_parameters
body_size-nil = refl

pub body_size-cons :
    (p : Parameter) (ps : List Parameter) → body_size (p ∷ ps) ≡ length p.content + 4 + body_size ps
unfolding body_size encode_parameters
body_size-cons p ps =
    omega
      (arith, length-encode_parameter p, length-append (encode_parameter p) (encode_parameters ps))

pub encode_parameters-snoc :
    (ps : List Parameter) (p : Parameter)
    → encode_parameters (ps ++ p ∷ []) ≡ encode_parameters ps ++ encode_parameter p
unfolding encode_parameters
encode_parameters-snoc [] p = append-nil _
encode_parameters-snoc (q ∷ ps) p =
    ap (λ r. encode_parameter q ++ r) (encode_parameters-snoc ps p)
    ∙ sym (append_assoc (encode_parameter q) _ _)

pub body_size-snoc :
    (ps : List Parameter) (p : Parameter)
    → body_size (ps ++ p ∷ []) ≡ body_size ps + length p.content + 4
unfolding body_size
body_size-snoc ps p = omega (
  arith,
  ap length (encode_parameters-snoc ps p),
  length-append (encode_parameters ps) (encode_parameter p),
  length-encode_parameter p,
)

pub encode_parameters-append :
    (ps qs : List Parameter)
    → encode_parameters (ps ++ qs) ≡ encode_parameters ps ++ encode_parameters qs
unfolding encode_parameters
encode_parameters-append [] qs = refl
encode_parameters-append (p ∷ ps) qs =
    ap (λ r. encode_parameter p ++ r) (encode_parameters-append ps qs)
    ∙ sym (append_assoc (encode_parameter p) _ _)

pub body_size-append : (ps qs : List Parameter) → body_size (ps ++ qs) ≡ body_size ps + body_size qs
unfolding body_size
body_size-append ps qs =
    ap length (encode_parameters-append ps qs)
    ∙ length-append (encode_parameters ps) (encode_parameters qs)

pub length-encode_frame :
    (version message_type : ℕ) (ps : List Parameter)
    → length (encode_frame version message_type ps) ≡ 5 + body_size ps
unfolding encode_frame encode_head body_size
length-encode_frame version message_type ps = omega arith

-- A body that begins with a parameter, split into that parameter and the rest.
pub slice-encode_parameters :
    (b : Buffer) (n : ℕ) (p : Parameter) (ps : List Parameter)
    → slice b n (body_size (p ∷ ps)) ≡ encode_parameters (p ∷ ps)
    → (slice b n (length p.content + 4) ≡ encode_parameter p)
      × (slice b (n + (length p.content + 4)) (body_size ps) ≡ encode_parameters ps)
unfolding encode_parameters
slice-encode_parameters b n p ps h = append-injective _ _ _ _ sizes joined
  where
    sizes : length (slice b n (length p.content + 4)) ≡ length (encode_parameter p)
    sizes = length-slice b n _ ∙ sym (length-encode_parameter p)

    joined :
        slice b n (length p.content + 4) ++ slice b (n + (length p.content + 4)) (body_size ps)
        ≡ encode_parameter p ++ encode_parameters ps
    joined =
        sym (slice-append b n (length p.content + 4) (body_size ps))
        ∙ ap (slice b n) (sym (body_size-cons p ps))
        ∙ h

-- The other way round: a parameter and the parameters behind it make one body.
pub encode_parameters-slice :
    (b : Buffer) (n : ℕ) (p : Parameter) (ps : List Parameter)
    → slice b n (length p.content + 4) ≡ encode_parameter p
    → slice b (n + (length p.content + 4)) (body_size ps) ≡ encode_parameters ps
    → slice b n (body_size (p ∷ ps)) ≡ encode_parameters (p ∷ ps)
unfolding encode_parameters
encode_parameters-slice b n p ps h k =
    ap (slice b n) (body_size-cons p ps)
    ∙ slice-append b n (length p.content + 4) (body_size ps)
    ∙ ap₂ ◌++◌ h k

pub no_bytes : (b : Buffer) (n : ℕ) → slice b n (body_size []) ≡ encode_parameters []
unfolding slice body_size encode_parameters
no_bytes b n = refl
