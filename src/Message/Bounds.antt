-- ===== src/Message/Bounds.antt =====
-- Which bytes `parse_message` of protocol.cpp reads, and which it writes.
use mathlib.Core.Option
use audio_server.Common.{
  ℕ, zero, suc, ◌+◌, ◌-◌, ◌≤◌, ◌<◌, ◌≡◌, refl, ap, ap₂, ◌∙◌, Bool, true, false, Option, some, [],
  ◌∷◌, arith, ltb, leb, ltb→lt, leb→lt, ==→eq, Bool-cases, inl, inr, ◌==◌, if◌then◌else◌,
}
use audio_server.Common.Buffers.{Buffer, shift, copy_bytes, copy_bytes_outside, store}
use audio_server.Protocol.{
  unpack_message_head, unpack_parameter, message_head_length, ParameterHead,
}
use audio_server.Message.{
  CommonMessage, max_message_length, Scan, push_position, scan_parameters, scan_body, take_head,
  parse_message,
}

-- Two buffers with the same first bytes.
abbrev pub Agree : ℕ → Buffer → Buffer → Type 0
Agree n a b = (j : ℕ) → j < n → a j ≡ b j

take_head-Agree :
    (m : CommonMessage) (a b : Buffer) (n : ℕ) → 5 ≤ n → Agree n a b → take_head m a ≡ take_head m b
unfolding take_head unpack_message_head
take_head-Agree m a b n h same = rw (
  same 0 (omega arith),
  same 1 (omega arith),
  same 2 (omega arith),
  same 3 (omega arith),
  same 4 (omega arith),
)

unpack_parameter-Agree :
    (a b : Buffer) (i n : ℕ)
    → i + 4 ≤ n
    → Agree n a b
    → unpack_parameter (shift i a) ≡ unpack_parameter (shift i b)
unfolding unpack_parameter
unpack_parameter-Agree a b i n h same = rw (
  same (i + 0) (omega arith),
  same (i + 1) (omega arith),
  same (i + 2) (omega arith),
  same (i + 3) (omega arith),
)

copy_bytes-Agree : (n : ℕ) (a b d : Buffer) → Agree n a b → copy_bytes n a d ≡ copy_bytes n b d
unfolding copy_bytes
copy_bytes-Agree zero a b d same = refl
copy_bytes-Agree (suc n) a b d same =
    ap₂ (store n) (same n (omega arith)) (copy_bytes-Agree n a b d (λ j h. same j (omega arith)))

-- A round whose parameter ends at `next`.
abbrev round : ℕ → Buffer → ℕ → ℕ → Option Scan
round fuel message body next = elim (ltb (next - message_head_length) body) [
  | true ↦ Option.map (push_position next) (scan_parameters fuel message body next)
  | false ↦ some (record { positions = next ∷ []; byte_count = next })
]

round-Agree :
    (fuel : ℕ) (a b : Buffer) (body next : ℕ)
    → (next ≤ 5 + body → scan_parameters fuel a body next ≡ scan_parameters fuel b body next)
    → round fuel a body next ≡ round fuel b body next
round-Agree fuel a b body next rest = elim (Bool-cases (ltb (next - message_head_length) body)) [
  | inl e ↦
      rw (e, round) (ap (Option.map (push_position next)) (rest (omega (arith, ltb→lt _ _ e))))
  | inr e ↦ rw (e, round)
]

-- A round starts at a byte of the body, so it reads less than four bytes behind the body.
scan_parameters-Agree :
    (fuel : ℕ) (a b : Buffer) (body count : ℕ)
    → count ≤ 5 + body
    → Agree (body + 9) a b
    → scan_parameters fuel a body count ≡ scan_parameters fuel b body count
unfolding scan_parameters
scan_parameters-Agree zero a b body count h same = refl
scan_parameters-Agree (suc fuel) a b body count h same =
    ap (λ (head : ParameterHead). round fuel a body (count + head.size))
      (unpack_parameter-Agree a b count (body + 9) (omega arith) same)
    ∙ round-Agree fuel a b body (count + (unpack_parameter (shift count b)).size)
        (λ within. scan_parameters-Agree fuel a b body _ within same)

scan_body-Agree :
    (a b : Buffer) (body : ℕ) → Agree (body + 9) a b → scan_body a body ≡ scan_body b body
unfolding scan_body
scan_body-Agree a b body same =
    ap (λ (o : Option Scan). Option.get_or o (record { positions = []; byte_count = 0 }))
      (scan_parameters-Agree (suc body) a b body 5 (omega arith) same)

-- `parse_message` from the test of the body's length on.
abbrev after_head : CommonMessage → Buffer → CommonMessage × Bool
after_head m' message =
    if leb (max_message_length - message_head_length) m'.message_body_length
    then (m', false)
    else (let s = scan_body message m'.message_body_length in
        let scanned : CommonMessage = record m' {
          parameter_positions = message_head_length ∷ s.positions;
        } in
        if message_head_length + m'.message_body_length == s.byte_count
        then (
          record scanned { message_data = copy_bytes s.byte_count message m'.message_data },
          true,
        )
        else (scanned, false))

after_head-Agree :
    (m : CommonMessage) (a b : Buffer) → Agree 16387 a b → after_head m a ≡ after_head m b
after_head-Agree m a b same = elim (Bool-cases (leb 16379 m.message_body_length)) [
  | inl long ↦ rw long refl
  | inr short ↦
      let small = leb→lt _ _ short in
      rw
        (short, scan_body-Agree a b m.message_body_length (λ j h. same j (omega (arith, small, h))))
        (elim (Bool-cases
          (5 + m.message_body_length == (scan_body b m.message_body_length).byte_count)) [
            | inr e ↦ rw e refl
            | inl e ↦ rw e (
                ap
                  (λ (d : Buffer). (
                    record m {
                      parameter_positions = 5 ∷ (scan_body b m.message_body_length).positions;
                      message_data = d;
                    },
                    true,
                  ))
                  (copy_bytes-Agree _ a b m.message_data
                    (λ j h. same j (omega (arith, small, h, ==→eq _ _ e)))))
          ])
]

after_head-written :
    (m : CommonMessage) (a : Buffer) (j : ℕ)
    → 16384 ≤ j
    → (after_head m a).0.message_data j ≡ m.message_data j
after_head-written m a j behind = elim (Bool-cases (leb 16379 m.message_body_length)) [
  | inl long ↦ rw long refl
  | inr short ↦
      rw short
        (elim (Bool-cases
          (5 + m.message_body_length == (scan_body a m.message_body_length).byte_count)) [
            | inr e ↦ rw e refl
            | inl e ↦ rw e (
                copy_bytes_outside _ a m.message_data j
                  (omega (arith, behind, leb→lt _ _ short, ==→eq _ _ e)))
          ])
]

-- The parser does not look behind the first 16,387 bytes of its input: two inputs that agree on
-- them give the same verdict and the same object. And it never writes `message_data_` behind its
-- 16,384 bytes.
pub parse_message-bounds :
    (m : CommonMessage) (a b : Buffer)
    → Agree 16387 a b
    → (parse_message m a ≡ parse_message m b)
      × ((j : ℕ) → 16384 ≤ j → (parse_message m a).0.message_data j ≡ m.message_data j)
unfolding parse_message
parse_message-bounds m a b same = (
  ap (λ (m' : CommonMessage). after_head m' a) (take_head-Agree m a b 16387 (omega arith) same)
      ∙ after_head-Agree (take_head m b) a b same,
  λ j behind. after_head-written (take_head m a) a j behind,
)
