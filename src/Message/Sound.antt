-- ===== src/Message/Sound.antt =====
-- The parameters that the `do` loop of `parse_message` has read.
use mathlib.Core.Option
use native.Mathlib.Decide.{dec_lt}
use native.Mathlib.Nat.{add-zero}
use audio_server.Common.{
  ℕ, zero, suc, ◌+◌, ◌-◌, ◌*◌, ◌≤◌, ◌≡◌, refl, ap, ◌∙◌, sym, subst, some, List, [], ◌∷◌, arith,
  length, All, ◌≢◌, inl, inr, Option-cases, some_eq,
}
use audio_server.Common.Words.{u16, IsByte}
use audio_server.Common.Buffers.{Buffer, shift, slice, length-slice, slice-IsByte, slice_four}
use audio_server.Protocol.{unpack_parameter}
use audio_server.Protocol.Frame.{
  Parameter, parameter, IsParameter, encode_parameter, encode_parameters, body_size, body_size-cons,
  body_size-nil, no_bytes, encode_parameters-slice,
}
use audio_server.Message.{Scan, push_position, scan_parameters}
use audio_server.Message.Loop.{ends, scan-Round}

-- The parameter that `unpack_parameter` sees at `n`.
pub parameter_at : Buffer → ℕ → Parameter
parameter_at b n =
    let head = unpack_parameter (shift n b) in
    parameter head.parameter_type (slice b (n + 4) head.parameter_length)

module _ (b : Buffer) (bytes : (j : ℕ) → IsByte (b j)) (n : ℕ) where
  parameter_at-IsParameter : IsParameter (parameter_at b n)
  unfolding parameter_at unpack_parameter
  parameter_at-IsParameter = (
    omega arith,
    omega (arith, length-slice b (n + 4) (u16 (b (n + 2) * 256 + b (n + 3)))),
    slice-IsByte b (n + 4) (u16 (b (n + 2) * 256 + b (n + 3))) bytes,
  )

  parameter_at-size : (unpack_parameter (shift n b)).size ≡ length (parameter_at b n).content + 4
  unfolding parameter_at unpack_parameter
  parameter_at-size = omega (arith, length-slice b (n + 4) (u16 (b (n + 2) * 256 + b (n + 3))))

  encode_parameter-parameter_at :
      slice b n (length (parameter_at b n).content + 4) ≡ encode_parameter (parameter_at b n)
  unfolding parameter_at unpack_parameter encode_parameter
  encode_parameter-parameter_at =
      rw (length-slice b (n + 4) (u16 (b (n + 2) * 256 + b (n + 3))), add-zero n, slice_four)
        (ground (arith, bytes n, bytes (n + 1), bytes (n + 2), bytes (n + 3)))

-- A run of the loop from `n` that returned `s`, as a non-empty list of parameters.
pub record Read (message : Buffer) (body n : ℕ) (s : Scan) : Type 0 where
  pub first : Parameter
  pub others : List Parameter
  pub valid : All IsParameter (first ∷ others)
  pub positions : s.positions ≡ ends n (first ∷ others)
  pub byte_count : s.byte_count ≡ n + body_size (first ∷ others)
  pub bytes : slice message n (body_size (first ∷ others)) ≡ encode_parameters (first ∷ others)
  pub past_body : 5 + body ≤ s.byte_count

module _ (message : Buffer) (bytes : (j : ℕ) → IsByte (message j)) (body : ℕ) where
  module _ (n : ℕ) where
    abbrev here : Parameter
    here = parameter_at message n

    abbrev next : ℕ
    next = n + (length here.content + 4)

    Read-last :
        body ≤ next - 5
        → 5 ≤ n
        → Read message body n (record { positions = next ∷ []; byte_count = next })
    Read-last last h = record {
      first = here;
      others = [];
      valid = (parameter_at-IsParameter message bytes n, tt);
      positions = refl;
      byte_count = omega (arith, body_size-cons here [], body_size-nil);
      bytes =
          encode_parameters-slice message n here [] (encode_parameter-parameter_at message bytes n)
            (no_bytes message next);
      past_body = omega arith;
    }

    Read-more : (s : Scan) → Read message body next s → Read message body n (push_position next s)
    Read-more s r = record {
      first = here;
      others = r.first ∷ r.others;
      valid = (parameter_at-IsParameter message bytes n, r.valid);
      positions = ap (λ qs. next ∷ qs) r.positions;
      byte_count = omega (arith, r.byte_count, body_size-cons here (r.first ∷ r.others));
      bytes =
          encode_parameters-slice message n here (r.first ∷ r.others)
            (encode_parameter-parameter_at message bytes n) r.bytes;
      past_body = r.past_body;
    }

  pub scan_parameters-Read :
      (fuel n : ℕ) (s : Scan)
      → 5 ≤ n
      → scan_parameters fuel message body n ≡ some s
      → Read message body n s
  scan_parameters-Read zero n s h e = absurd (nothing e)
    where
      nothing : scan_parameters zero message body n ≢ some s
      nothing = unfold scan_parameters in λ e. cc
  scan_parameters-Read (suc fuel) n s h e =
      let step = ap (λ (k : ℕ). n + k) (parameter_at-size message bytes n) in
      let round = scan-Round fuel message body n (next n) step in
      elim (dec_lt (next n - 5) body) [
        | yes more ↦ elim (Option-cases (scan_parameters fuel message body (next n))) [
          | inl out ↦ absurd (cc (e, round.0 more, out))
          | inr (t, found) ↦
              let same : push_position (next n) t ≡ s =
                some_eq _ _
                  (sym (ap (Option.map (push_position (next n))) found) ∙ sym (round.0 more) ∙ e) in
              subst (Read message body n) same
                (Read-more n t (scan_parameters-Read fuel (next n) t (omega arith) found))
        ]
        | no last ↦
            let same : record { positions = next n ∷ []; byte_count = next n } ≡ s =
              some_eq _ _ (sym (round.1 (omega arith)) ∙ e) in
            subst (Read message body n) same (Read-last n (omega arith) h)
      ]
