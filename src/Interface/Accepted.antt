-- ===== src/Interface/Accepted.antt =====
-- A frame as the parser and the getters see it.
use audio_server.Common.{ℕ, ◌/◌, ◌<◌, ◌≡◌, ap, ◌∙◌, Bool, true, some, List, [], ◌∷◌, arith}
use audio_server.Common.Words.{u8}
use audio_server.Common.Buffers.{Buffer}
use audio_server.Protocol.{ushort, uint}
use audio_server.Message.{CommonMessage, parse_message, get_parameter_value}
use audio_server.Message.Parse.{IsFrame}
use audio_server.Message.Lookup.{big_endian, contents_of}
use audio_server.Message.Getters.{
  parameters, parse_message-IsFrame-eq, get_parameter_value-parse_message,
}

-- What the numbers of the protocol are written as, read back.
ushort_content : (v : ℕ) → v < 65536 → big_endian 0 (u8 (v / 256) ∷ u8 v ∷ []) ≡ v
unfolding big_endian
ushort_content v h = omega arith

uint_content :
    (v : ℕ)
    → v < 4294967296
    → big_endian 0 (u8 (v / 16777216) ∷ u8 (v / 65536) ∷ u8 (v / 256) ∷ u8 v ∷ []) ≡ v
unfolding big_endian
uint_content v h = omega arith

-- The parser accepts `input` as a message of this type and version.
abbrev pub Accepts : CommonMessage → Buffer → ℕ → ℕ → Type 0
Accepts m input message_type version =
    ((parse_message m input).1 ≡ true)
    × ((parse_message m input).0.message_type ≡ message_type)
    × ((parse_message m input).0.protocol_version ≡ version)

pub IsFrame-Accepts :
    (m : CommonMessage) (input : Buffer) (f : IsFrame input)
    → Accepts m input f.message_type f.version
IsFrame-Accepts m input f =
    let parses = parse_message-IsFrame-eq m input f in
    (
      ap (λ (r : CommonMessage × Bool). r.1) parses,
      ap (λ (r : CommonMessage × Bool). r.0.message_type) parses,
      ap (λ (r : CommonMessage × Bool). r.0.protocol_version) parses,
    )

module _ (m : CommonMessage) (input : Buffer) (f : IsFrame input) where
  pub get_ushort :
      (kind v : ℕ) (cs : List (List ℕ))
      → v < 65536
      → contents_of kind (parameters m input f) ≡ (u8 (v / 256) ∷ u8 v ∷ []) ∷ cs
      → get_parameter_value ushort (parse_message m input).0 kind ≡ some v
  get_ushort kind v cs fits e =
      get_parameter_value-parse_message m input f ushort kind _ cs e (omega arith)
      ∙ ap some (ushort_content v fits)

  pub get_uint :
      (kind v : ℕ) (cs : List (List ℕ))
      → v < 4294967296
      → contents_of kind (parameters m input f)
        ≡ (u8 (v / 16777216) ∷ u8 (v / 65536) ∷ u8 (v / 256) ∷ u8 v ∷ []) ∷ cs
      → get_parameter_value uint (parse_message m input).0 kind ≡ some v
  get_uint kind v cs fits e =
      get_parameter_value-parse_message m input f uint kind _ cs e (omega arith)
      ∙ ap some (uint_content v fits)
