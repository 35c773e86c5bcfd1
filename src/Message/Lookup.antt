-- ===== src/Message/Lookup.antt =====
-- One parameter of a frame, as `get_parameter_value` and `get_parameter_content` read it.
use mathlib.Core.Path.{fun_ext}
use native.Mathlib.Nat.{add-zero}
use audio_server.Common.{
  ℕ, zero, suc, ◌+◌, ◌*◌, ◌≤◌, ◌≡◌, refl, ap, ap₂, ◌∙◌, sym, none, some, List, [], ◌∷◌, arith,
  length, All, All-take, take, ◌==◌, ◌≢◌, ==_refl, if◌then◌else◌,
}
use audio_server.Common.Words.{IsByte}
use audio_server.Common.Buffers.{Buffer, shift, slice, slice_four}
use audio_server.Protocol.{unpack_parameter_t, read_value, Width, uchar, ushort, short, uint, int}
use audio_server.Protocol.Frame.{Parameter, IsParameter, encode_parameter}
use audio_server.Message.Loop.{unpack_parameter-encode_parameter}

-- The contents of the parameters of one type, in the order of the message.
unfoldable pub contents_of : ℕ → List Parameter → List (List ℕ)
contents_of kind [] = []
contents_of kind (p ∷ ps) =
    if p.kind == kind then p.content ∷ contents_of kind ps else contents_of kind ps

unfoldable pub big_endian : ℕ → List ℕ → ℕ
big_endian acc [] = acc
big_endian acc (x ∷ xs) = big_endian (acc * 256 + x) xs

abbrev pub size_of : Width → ℕ
size_of uchar = 1
size_of ushort = 2
size_of short = 2
size_of uint = 4
size_of int = 4

read_four :
    (b : Buffer) (i : ℕ)
    → All IsByte (slice b i 4)
    → read_value uint (shift i b) ≡ big_endian 0 (slice b i 4)
unfolding read_value big_endian slice
read_four b i ok =
    rw (ap b (add-zero i), ap b two, ap b three) (omega (arith, ok, ap b two, ap b three))
  where
    two : i + 1 + 1 ≡ i + 2
    two = omega arith

    three : i + 1 + 1 + 1 ≡ i + 3
    three = omega arith

-- A number is read from as many bytes as its type has, the first one highest.
read_value-slice :
    (width : Width) (b : Buffer) (i : ℕ)
    → All IsByte (slice b i (size_of width))
    → read_value width (shift i b) ≡ big_endian 0 (slice b i (size_of width))
unfolding read_value big_endian slice
read_value-slice uchar b i ok = rw (ap b (add-zero i)) (omega arith)
read_value-slice ushort b i ok = rw (ap b (add-zero i)) (omega (arith, ok))
read_value-slice short b i ok = rw (ap b (add-zero i)) (omega (arith, ok))
read_value-slice uint b i ok = read_four b i ok
read_value-slice int b i ok = read_four b i ok

slice-take :
    (b : Buffer) (i n : ℕ) (c : List ℕ)
    → slice b i (length c) ≡ c
    → n ≤ length c
    → slice b i n ≡ take n c
unfolding slice
slice-take b i zero c h k = refl
slice-take b i (suc n) [] h k = absurd (omega arith)
slice-take b i (suc n) (x ∷ c) h k = ap₂ ◌∷◌ (cc) (slice-take b (i + 1) n c (cc) (omega arith))

-- The bytes of a content, as the getters read them.
read_value-big_endian :
    (width : Width) (b : Buffer) (i : ℕ) (c : List ℕ)
    → slice b i (length c) ≡ c
    → size_of width ≤ length c
    → All IsByte c
    → read_value width (shift i b) ≡ big_endian 0 (take (size_of width) c)
read_value-big_endian width b i c h k ok =
    let e = slice-take b i (size_of width) c h k in
    read_value-slice width b i (rw e (All-take IsByte (size_of width) c ok)) ∙ ap (big_endian 0) e

shift-shift : (b : Buffer) (i j : ℕ) → shift i (shift j b) ≡ shift (j + i) b
shift-shift b i j = fun_ext (λ k. ap b (omega arith))

-- The content stands behind the head.
pub content_slice :
    (b : Buffer) (n : ℕ) (p : Parameter)
    → slice b n (length p.content + 4) ≡ encode_parameter p
    → slice b (n + 4) (length p.content) ≡ p.content
unfolding encode_parameter
content_slice b n p h = let e = sym (slice_four b n (length p.content)) ∙ h in cc

module _ (width : Width) (b : Buffer) (kind n : ℕ) (p : Parameter) (ok : IsParameter p)
    (h : slice b n (length p.content + 4) ≡ encode_parameter p) where
  pub unpack_parameter_t-hit :
      p.kind ≡ kind
      → size_of width ≤ length p.content
      → unpack_parameter_t width (shift n b) kind
        ≡ some (big_endian 0 (take (size_of width) p.content))
  unfolding unpack_parameter_t
  unpack_parameter_t-hit same enough = rw (
    unpack_parameter-encode_parameter b n p ok h,
    same,
    ==_refl kind,
    shift-shift b 4 n,
    read_value-big_endian width b (n + 4) p.content (content_slice b n p h) enough ok.2,
  )

  pub unpack_parameter_t-miss : p.kind ≢ kind → unpack_parameter_t width (shift n b) kind ≡ none
  unfolding unpack_parameter_t
  unpack_parameter_t-miss other = rw (unpack_parameter-encode_parameter b n p ok h) (ground arith)
