-- ===== src/Protocol/Append.antt =====
-- The writes of `package_message_parameter_content` behind a position of the output buffer.
use audio_server.Common.{
  ℕ, zero, suc, ◌+◌, ◌/◌, ◌≤◌, ◌<◌, ◌≡◌, refl, ap, ap₂, ◌∙◌, sym, ◌⊎◌, inl, List, [], ◌∷◌, ◌++◌,
  arith, length, length-append,
}
use audio_server.Common.Words.{u8}
use audio_server.Common.Buffers.{Buffer, store_self, store_ne, slice, slice-append, slice_congr}
use audio_server.Protocol.{Writer, append_byte, append_value, append_parameter_head}

-- `w'` is `w` after the bytes `xs` are written at its position, and nothing else.
pub record Wrote (xs : List ℕ) (w w' : Writer) : Type 0 where
  pub position : w'.length ≡ w.length + length xs
  pub inside : slice w'.bytes w.length (length xs) ≡ xs
  pub outside : (j : ℕ) → (j < w.length) ⊎ (w.length + length xs ≤ j) → w'.bytes j ≡ w.bytes j

pub Wrote-nil : (w : Writer) → Wrote [] w w
unfolding slice
Wrote-nil w = record { position = omega arith; inside = refl; outside = λ j h. refl }

pub Wrote-append :
    (xs ys : List ℕ) (u v w : Writer) → Wrote xs u v → Wrote ys v w → Wrote (xs ++ ys) u w
Wrote-append xs ys u v w p q = record {
  position = omega (arith, length-append xs ys, p.position, q.position);
  inside =
      ap (slice w.bytes u.length) (length-append xs ys)
      ∙ slice-append w.bytes u.length (length xs) (length ys)
      ∙ ap₂ ◌++◌
          (slice_congr w.bytes v.bytes u.length (length xs)
              (λ j a b. q.outside j (inl (omega (arith, p.position))))
            ∙ p.inside)
          (ap (λ k. slice w.bytes k (length ys)) (sym p.position) ∙ q.inside);
  outside = λ j h.
      q.outside j (ground (arith, length-append xs ys, p.position))
      ∙ p.outside j (ground (arith, length-append xs ys));
}

pub append_byte-Wrote :
    (x : ℕ) (w : Writer) → w.length + 1 < 65536 → Wrote (x ∷ []) w (append_byte x w)
unfolding append_byte slice
append_byte-Wrote x w h = record {
  position = omega arith;
  inside = ap (λ y. y ∷ []) (store_self w.length x w.bytes);
  outside = λ j o. store_ne w.length x w.bytes j (ground arith);
}

pub append_parameter_head-Wrote :
    (t n : ℕ) (w : Writer)
    → w.length + 4 < 65536
    → Wrote (u8 (t / 256) ∷ u8 t ∷ u8 (n / 256) ∷ u8 n ∷ []) w (append_parameter_head t n w)
unfolding append_parameter_head
append_parameter_head-Wrote t n w h =
    let a = append_byte (u8 (t / 256)) w in
    let b = append_byte (u8 t) a in
    let c = append_byte (u8 (n / 256)) b in
    let pa = append_byte-Wrote (u8 (t / 256)) w (omega arith) in
    let pb = append_byte-Wrote (u8 t) a (omega (arith, pa.position)) in
    let pc = append_byte-Wrote (u8 (n / 256)) b (omega (arith, pa.position, pb.position)) in
    let pd = append_byte-Wrote (u8 n) c (omega (arith, pa.position, pb.position, pc.position)) in
    Wrote-append (_ ∷ []) _ w a _ pa
      (Wrote-append (_ ∷ []) _ a b _ pb (Wrote-append (_ ∷ []) (_ ∷ []) b c _ pc pd))

pub append_value-Wrote :
    (n i : ℕ) (value : Buffer) (w : Writer)
    → w.length + n < 65536
    → Wrote (slice value i n) w (append_value n i value w)
unfolding append_value slice
append_value-Wrote zero i value w h = Wrote-nil w
append_value-Wrote (suc n) i value w h =
    let first = append_byte-Wrote (value i) w (omega arith) in
    Wrote-append (value i ∷ []) _ w _ _ first
      (append_value-Wrote n (i + 1) value (append_byte (value i) w) (omega (arith, first.position)))
