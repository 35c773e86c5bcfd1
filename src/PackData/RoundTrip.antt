-- ===== src/PackData/RoundTrip.antt =====
-- pack_primitive followed by parse_primitive, both of pack_data.h.
use native.Mathlib.Nat.{pow-suc, div-div-eq-div-mul, mod-eq_of_lt, div-eq_of_lt, div-le_self}
use audio_server.Common.{
  ℕ, zero, suc, ◌+◌, ◌-◌, ◌*◌, ◌/◌, ◌%◌, ◌^◌, ◌≤◌, ◌<◌, ◌≡◌, refl, ap, ◌∙◌, sym, arith, ◌==◌, ==→eq,
  Bool-cases, inl, inr,
}
use audio_server.Common.Words.{u8}
use audio_server.Common.Buffers.{Buffer, store, store_self}
use audio_server.PackData.{pack_bytes, pack_primitive, parse_bytes, parse_primitive}

abbrev byte_of : ℕ → ℕ → ℕ
byte_of src k = u8 (src / 2 ^ (k * 8))

pow_eight : (n : ℕ) → 2 ^ (suc (suc (suc (suc (suc (suc (suc (suc n)))))))) ≡ 2 ^ n * 256
pow_eight n = omega (
  arith,
  pow-suc 2 n,
  pow-suc 2 (suc n),
  pow-suc 2 (suc (suc n)),
  pow-suc 2 (suc (suc (suc n))),
  pow-suc 2 (suc (suc (suc (suc n)))),
  pow-suc 2 (suc (suc (suc (suc (suc n))))),
  pow-suc 2 (suc (suc (suc (suc (suc (suc n)))))),
  pow-suc 2 (suc (suc (suc (suc (suc (suc (suc n))))))),
)

pow_byte : (k : ℕ) → 2 ^ (suc k * 8) ≡ 2 ^ (k * 8) * 256
pow_byte k = ap (λ (m : ℕ). 2 ^ m) (omega arith) ∙ pow_eight (k * 8)

next_byte : (src k : ℕ) → src / 2 ^ (suc k * 8) * 256 + byte_of src k ≡ src / 2 ^ (k * 8)
next_byte src k =
    omega (arith, ap (λ (m : ℕ). src / m) (pow_byte k), div-div-eq-div-mul src (2 ^ (k * 8)) 256)

pack_bytes-other :
    (left i size src j : ℕ) (dst : Buffer) → j < i → pack_bytes left i size src dst j ≡ dst j
unfolding pack_bytes store
pack_bytes-other zero i size src j dst before = refl
pack_bytes-other (suc left) i size src j dst before = ground (
  arith,
  pack_bytes-other left (i + 1) size src j (store i (u8 (src / 2 ^ ((size - 1 - i) * 8))) dst),
)

pack_bytes-behind :
    (left i size src j : ℕ) (dst : Buffer)
    → i + left ≡ size
    → size ≤ j
    → pack_bytes left i size src dst j ≡ dst j
unfolding pack_bytes store
pack_bytes-behind zero i size src j dst e behind = refl
pack_bytes-behind (suc left) i size src j dst e behind = ground (
  arith,
  pack_bytes-behind left (i + 1) size src j (store i (u8 (src / 2 ^ ((size - 1 - i) * 8))) dst),
)

-- The byte at index `j` holds the digit `k` of the number, counted from the lowest.
pack_bytes-inside :
    (left i size src j k : ℕ) (dst : Buffer)
    → i + left ≡ size
    → j + k + 1 ≡ size
    → i ≤ j
    → pack_bytes left i size src dst j ≡ byte_of src k
unfolding pack_bytes
pack_bytes-inside zero i size src j k dst e at from = absurd (omega arith)
pack_bytes-inside (suc left) i size src j k dst e at from = elim (Bool-cases (j == i)) [
  | inr ne ↦
      pack_bytes-inside left (i + 1) size src j k _ (omega arith) at (ground (arith, ne, from))
  | inl eq ↦
      let here : j ≡ i = ==→eq j i eq in
      pack_bytes-other left (i + 1) size src j _ (omega (arith, here))
      ∙ ap (λ x. store i written dst x) here
      ∙ store_self i written dst
      ∙ ap (λ m. byte_of src m) (omega (arith, here))
]
  where
    written : ℕ
    written = u8 (src / 2 ^ ((size - 1 - i) * 8))

-- Every round puts the next digit below what is read so far.
parse_bytes-digits :
    (left i size src : ℕ) (b : Buffer)
    → i + left ≡ size
    → src < 2 ^ (size * 8)
    → ((j k : ℕ) → j + k + 1 ≡ size → b j ≡ byte_of src k)
    → parse_bytes left i size b (src / 2 ^ (left * 8)) ≡ src
unfolding parse_bytes
parse_bytes-digits zero i size src b e small digits = omega arith
parse_bytes-digits (suc left) i size src b e small digits =
    ap (parse_bytes left (i + 1) size b) read
    ∙ parse_bytes-digits left (i + 1) size src b (omega arith) small digits
  where
    below : src / 2 ^ (left * 8) < 2 ^ (size * 8)
    below = omega (arith, small, div-le_self src (2 ^ (left * 8)))

    read : (src / 2 ^ (suc left * 8) * 256 + b i) % 2 ^ (size * 8) ≡ src / 2 ^ (left * 8)
    read =
        ap (λ (x : ℕ). (src / 2 ^ (suc left * 8) * 256 + x) % 2 ^ (size * 8))
          (digits i left (omega arith))
        ∙ ap (λ (x : ℕ). x % 2 ^ (size * 8)) (next_byte src left)
        ∙ mod-eq_of_lt below

-- A number that fits `size` bytes is read back from any buffer into which it was packed, and the
-- bytes behind it stay as they were.
pub parse_primitive-pack_primitive :
    (size src : ℕ) (dst : Buffer)
    → src < 2 ^ (size * 8)
    → (parse_primitive size (pack_primitive size dst src).bytes ≡ src)
      × ((j : ℕ) → size ≤ j → (pack_primitive size dst src).bytes j ≡ dst j)
unfolding pack_primitive parse_primitive
parse_primitive-pack_primitive size src dst small = (
  ap (parse_bytes size 0 size _) (sym (div-eq_of_lt small))
      ∙ parse_bytes-digits size 0 size src _ (omega arith) small
          (λ j k at. pack_bytes-inside size 0 size src j k dst (omega arith) at (omega arith)),
  λ j behind. pack_bytes-behind size 0 size src j dst (omega arith) behind,
)
