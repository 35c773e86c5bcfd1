-- ===== src/Protocol/Package.antt =====
-- `package_message_head` and `package_message_parameter_content` against the frame format.
use audio_server.Common.{
  ℕ, ◌+◌, ◌/◌, ◌≤◌, ◌<◌, ◌≡◌, refl, ap, ap₂, ◌∙◌, sym, subst, ◌⊎◌, inl, inr, List, [], ◌∷◌, ◌++◌,
  arith, length,
}
use audio_server.Common.Words.{u8}
use audio_server.Common.Buffers.{Buffer, store, slice, slice-append, slice_congr, length-slice}
use audio_server.Protocol.{
  Writer, Packed, message_end, store_length, append_value, append_parameter_head,
  package_message_head, package_message_parameter_content,
}
use audio_server.Protocol.Frame.{
  Parameter, parameter, encode_parameter, encode_parameters, body_size, encode_head, encode_frame,
  body_size-snoc, encode_parameters-snoc, length-encode_parameter,
}
use audio_server.Protocol.Append.{
  Wrote, Wrote-append, append_parameter_head-Wrote, append_value-Wrote,
}

-- The buffer begins with the frame of these parameters.
pub record Holds (version message_type : ℕ) (ps : List Parameter) (b : Buffer) : Type 0 where
  pub head : slice b 0 5 ≡ encode_head version message_type (body_size ps)
  pub body : slice b 5 (body_size ps) ≡ encode_parameters ps

pub Holds-encode_frame :
    (version message_type : ℕ) (ps : List Parameter) (b : Buffer)
    → Holds version message_type ps b
    → slice b 0 (5 + body_size ps) ≡ encode_frame version message_type ps
unfolding encode_frame
Holds-encode_frame version message_type ps b h =
    slice-append b 0 5 (body_size ps) ∙ ap₂ ◌++◌ h.head h.body

pub package_message_head-Holds :
    (b : Buffer) (version message_type : ℕ)
    → Holds version message_type [] (package_message_head b version message_type).bytes
unfolding package_message_head slice store encode_head body_size encode_parameters
package_message_head-Holds b version message_type = record { head = refl; body = refl }

-- The head writes five bytes and leaves the rest of the buffer alone.
pub package_message_head_outside :
    (b : Buffer) (version message_type j : ℕ)
    → 5 ≤ j
    → (package_message_head b version message_type).bytes j ≡ b j
unfolding package_message_head store
package_message_head_outside b version message_type j h = ground arith

encode_parameter-slice :
    (kind : ℕ) (value : Buffer) (n : ℕ)
    → encode_parameter (parameter kind (slice value 0 n))
      ≡ (u8 (kind / 256) ∷ u8 kind ∷ u8 (n / 256) ∷ u8 n ∷ []) ++ slice value 0 n
unfolding encode_parameter
encode_parameter-slice kind value n =
    ap (λ k. u8 (kind / 256) ∷ u8 kind ∷ u8 (k / 256) ∷ u8 k ∷ slice value 0 n)
      (length-slice value 0 n)

-- The length field of a held frame, read back.
size_field :
    (version message_type : ℕ) (ps : List Parameter) (b : Buffer)
    → Holds version message_type ps b
    → (b 3 ≡ u8 (body_size ps / 256)) × (b 4 ≡ u8 (body_size ps))
unfolding slice encode_head
size_field version message_type ps b h = ground (arith, h.head)

-- The frame of `ps` stands in the result, whose size is the frame's, and the bytes behind it are
-- those of the buffer `b`.
pub record Appended (version message_type : ℕ) (ps : List Parameter) (b : Buffer) (r : Packed)
    : Type 0 where
  pub holds : Holds version message_type ps r.bytes
  pub size : r.size ≡ 5 + body_size ps
  pub outside : (j : ℕ) → 5 + body_size ps ≤ j → r.bytes j ≡ b j

module _ (version message_type : ℕ) (ps : List Parameter) (b : Buffer)
    (holds : Holds version message_type ps b) where
  message_end-length : 5 + body_size ps < 65536 → (message_end b).length ≡ 5 + body_size ps
  unfolding message_end
  message_end-length fits = omega (arith, size_field version message_type ps b holds)

  module _ (p : Parameter) (w : Writer) (wrote : Wrote (encode_parameter p) (message_end b) w)
      (fits : 5 + body_size (ps ++ p ∷ []) < 65536) where
    end_position : w.length ≡ 5 + body_size (ps ++ p ∷ [])
    end_position = omega (
      arith,
      wrote.position,
      message_end-length (omega (arith, body_size-snoc ps p)),
      body_size-snoc ps p,
      length-encode_parameter p,
    )

    start_position : (message_end b).length ≡ 5 + body_size ps
    start_position = message_end-length (omega (arith, body_size-snoc ps p))

    stored_bytes : (j : ℕ) → (j < 3) ⊎ (5 ≤ j) → (store_length w).bytes j ≡ w.bytes j
    unfolding store_length store
    stored_bytes j h = ground arith

    old_bytes : (j : ℕ) → j < 5 + body_size ps → w.bytes j ≡ b j
    unfolding message_end
    old_bytes j h = wrote.outside j (inl (omega (arith, start_position)))

    head_bytes :
        slice (store_length w).bytes 0 5
        ≡ encode_head version message_type (body_size (ps ++ p ∷ []))
    unfolding slice encode_head store_length store
    head_bytes = ground (
      arith,
      end_position,
      holds.head,
      old_bytes 0 (omega arith),
      old_bytes 1 (omega arith),
      old_bytes 2 (omega arith),
    )

    old_body : slice (store_length w).bytes 5 (body_size ps) ≡ encode_parameters ps
    old_body =
        slice_congr _ b 5 (body_size ps) (λ j p q. stored_bytes j (inr p) ∙ old_bytes j q)
        ∙ holds.body

    new_body :
        slice (store_length w).bytes (5 + body_size ps) (length (encode_parameter p))
        ≡ encode_parameter p
    new_body =
        slice_congr _ w.bytes _ _ (λ j p q. stored_bytes j (inr (omega arith)))
        ∙ rw start_position at wrote.inside

    body_bytes :
        slice (store_length w).bytes 5 (body_size (ps ++ p ∷ [])) ≡ encode_parameters (ps ++ p ∷ [])
    body_bytes =
        ap (slice (store_length w).bytes 5) total
        ∙ slice-append _ 5 (body_size ps) (length (encode_parameter p))
        ∙ ap₂ ◌++◌ old_body new_body
        ∙ sym (encode_parameters-snoc ps p)
      where
        total : body_size (ps ++ p ∷ []) ≡ body_size ps + length (encode_parameter p)
        total = omega (arith, body_size-snoc ps p, length-encode_parameter p)

    store_length-Appended : Appended version message_type (ps ++ p ∷ []) b (store_length w)
    unfolding store_length store message_end
    store_length-Appended = record {
      holds = record { head = head_bytes; body = body_bytes };
      size = omega (arith, end_position);
      outside = λ j h.
          stored_bytes j (inr (omega arith))
          ∙ wrote.outside j (inr (omega (arith, end_position, wrote.position)));
    }

  -- A parameter that fits is appended to the frame.
  pub package_message_parameter_content-Appended :
      (kind : ℕ) (value : Buffer) (n : ℕ)
      → 5 + body_size (ps ++ parameter kind (slice value 0 n) ∷ []) < 65536
      → Appended version message_type
          (ps ++ parameter kind (slice value 0 n) ∷ [])
          b
          (package_message_parameter_content b kind value n)
  unfolding package_message_parameter_content
  package_message_parameter_content-Appended kind value n fits =
      store_length-Appended p w wrote fits
    where
      p : Parameter
      p = parameter kind (slice value 0 n)

      room : 5 + body_size ps + n + 4 < 65536
      room = omega (arith, fits, body_size-snoc ps p, length-slice value 0 n)

      v : Writer
      v = append_parameter_head kind n (message_end b)

      w : Writer
      w = append_value n 0 value v

      start : (message_end b).length ≡ 5 + body_size ps
      start = message_end-length (omega (arith, room))

      wrote_head : Wrote (u8 (kind / 256) ∷ u8 kind ∷ u8 (n / 256) ∷ u8 n ∷ []) (message_end b) v
      wrote_head = append_parameter_head-Wrote kind n (message_end b) (omega (arith, room, start))

      wrote : Wrote (encode_parameter p) (message_end b) w
      wrote =
          subst (λ xs. Wrote xs (message_end b) w) (sym (encode_parameter-slice kind value n))
            (Wrote-append _ _ (message_end b) v w wrote_head
              (append_value-Wrote n 0 value v (omega (arith, room, start, wrote_head.position))))
