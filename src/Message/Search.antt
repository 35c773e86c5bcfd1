-- ===== src/Message/Search.antt =====
-- The loops of `get_parameter_value` and `get_parameter_content` over the parameters of a frame.
use native.Mathlib.Decide.{ℕ_discrete}
use audio_server.Common.{
  ℕ, zero, suc, ◌+◌, ◌≤◌, ◌≡◌, ap, ◌∙◌, Option, none, some, List, [], ◌∷◌, arith, length, All, take,
  ◌==◌, ◌≢◌, Option-cases, inl, inr, if◌then◌else◌, le→ltb,
}
use audio_server.Common.Buffers.{Buffer, shift, slice}
use audio_server.Protocol.{unpack_parameter_t, Width}
use audio_server.Protocol.Frame.{
  Parameter, IsParameter, encode_parameter, encode_parameters, body_size, body_size-cons,
  body_size-nil, slice-encode_parameters,
}
use audio_server.Message.{find_value, find_content}
use audio_server.Message.Loop.{ends, unpack_parameter-encode_parameter}
use audio_server.Message.Lookup.{
  contents_of, big_endian, size_of, content_slice, unpack_parameter_t-hit, unpack_parameter_t-miss,
}

module _ (width : Width) (b : Buffer) (kind : ℕ) where
  -- The getter returns the first parameter of its type.
  pub find_value-found :
      (ps : List Parameter) (n : ℕ) (c : List ℕ) (cs : List (List ℕ))
      → All IsParameter ps
      → slice b n (body_size ps) ≡ encode_parameters ps
      → contents_of kind ps ≡ c ∷ cs
      → size_of width ≤ length c
      → find_value width b kind (n ∷ ends n ps) ≡ some (big_endian 0 (take (size_of width) c))
  unfolding find_value contents_of
  find_value-found [] n c cs ok h e k = cc
  find_value-found (p ∷ ps) n c cs ok h e k =
      let (read, others) = slice-encode_parameters b n p ps h in
      elim (ℕ_discrete p.kind kind) [
        | yes same ↦
            let content : p.content ≡ c = ground arith in
            rw (
              unpack_parameter_t-hit width b kind n p ok.0 read same (rw content k),
              find_value,
              content,
            )
        | no other ↦
            rw (unpack_parameter_t-miss width b kind n p ok.0 read other, find_value)
              (find_value-found ps (n + (length p.content + 4)) c cs ok.1 others (ground arith) k)
      ]

  find_value-last :
      (n : ℕ) → find_value width b kind (n ∷ []) ≡ unpack_parameter_t width (shift n b) kind
  unfolding find_value
  find_value-last n = elim (Option-cases (unpack_parameter_t width (shift n b) kind)) [
    | inl e ↦ rw (e, find_value)
    | inr (v, e) ↦ rw (e, find_value)
  ]

  -- Behind the last parameter the getter goes on, at the position of the message's end.
  pub find_value-missing :
      (ps : List Parameter) (n : ℕ)
      → All IsParameter ps
      → slice b n (body_size ps) ≡ encode_parameters ps
      → contents_of kind ps ≡ []
      → find_value width b kind (n ∷ ends n ps)
        ≡ unpack_parameter_t width (shift (n + body_size ps) b) kind
  unfolding find_value contents_of
  find_value-missing [] n ok h e =
      find_value-last n
      ∙ ap (λ i. unpack_parameter_t width (shift i b) kind) (omega (arith, body_size-nil))
  find_value-missing (p ∷ ps) n ok h e =
      let (read, others) = slice-encode_parameters b n p ps h in
      let other : p.kind ≢ kind = ground arith in
      rw (unpack_parameter_t-miss width b kind n p ok.0 read other, find_value)
        (find_value-missing ps (n + (length p.content + 4)) ok.1 others (ground arith)
          ∙ ap (λ i. unpack_parameter_t width (shift i b) kind)
              (omega (arith, body_size-cons p ps)))

-- The element at an index.
abbrev pub nth {ℓ} : {A : Type ℓ} → ℕ → List A → Option A
nth i [] = none
nth zero (x ∷ xs) = some x
nth (suc i) (x ∷ xs) = nth i xs

abbrev pub IsShort : Parameter → Type 0
IsShort p = length p.content ≤ 8192

module _ (b : Buffer) (kind index : ℕ) where
  -- One round of `get_parameter_content`, at a parameter of at most 8192 bytes.
  module _ (n count : ℕ) (rest : List ℕ) (p : Parameter) (ok : IsParameter p) (small : IsShort p)
      (read : slice b n (length p.content + 4) ≡ encode_parameter p) where
    content_round : find_content b kind index count (n ∷ rest) ≡ (
        if kind == p.kind
        then (if count == index then some p.content else find_content b kind index (count + 1) rest)
        else find_content b kind index count rest)
    unfolding find_content
    content_round = rw (
      unpack_parameter-encode_parameter b n p ok read,
      le→ltb 8192 (length p.content) small,
      content_slice b n p read,
      find_content,
    )

  -- Counting on from `count`, the getter returns the parameter of the type at the index.
  pub find_content-nth :
      (ps : List Parameter) (n count left : ℕ) (c : List ℕ)
      → All IsParameter ps
      → All IsShort ps
      → slice b n (body_size ps) ≡ encode_parameters ps
      → count + left ≡ index
      → nth left (contents_of kind ps) ≡ some c
      → find_content b kind index count (n ∷ ends n ps) ≡ some c
  unfolding contents_of
  find_content-nth [] n count left c ok small h e k = cc
  find_content-nth (p ∷ ps) n count left c ok small h e k =
      let (read, others) = slice-encode_parameters b n p ps h in
      let next = n + (length p.content + 4) in
      rw (content_round n count (ends n (p ∷ ps)) p ok.0 small.0 read) (
        round left e k
          λ count' left' e' k'. find_content-nth ps next count' left' c ok.1 small.1 others e' k')
    where
      round :
          (left : ℕ)
          → count + left ≡ index
          → nth left (contents_of kind (p ∷ ps)) ≡ some c
          → ((count' left' : ℕ)
              → count' + left' ≡ index
              → nth left' (contents_of kind ps) ≡ some c
              → find_content b kind index count' (ends n (p ∷ ps)) ≡ some c)
          → (if kind == p.kind
              then (if count == index
                  then some p.content
                  else find_content b kind index (count + 1) (ends n (p ∷ ps)))
              else find_content b kind index count (ends n (p ∷ ps)))
            ≡ some c
      round zero e k rest = ground (arith, rest count zero)
      round (suc l) e k rest = ground (arith, rest count (suc l), rest (count + 1) l)
