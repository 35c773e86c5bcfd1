-- ===== src/Ffmpeg/Ledger.antt =====
-- What the code of ffmpeg_utils.cpp and Server.cpp holds after a list of calls: each resource is
-- counted, and a release without a resource has no count.
use audio_server.Common.{
  ℕ, ◌+◌, ◌-◌, ◌≡◌, refl, Bool, Option, some, none, [], ◌∷◌, ltb, ◌==◌, arith, if◌then◌else◌,
}
use audio_server.Common.Int.{ℤ, is_set, is_negative}
use audio_server.Ffmpeg.{
  Call, History, M, Outcome, done, undefined, out_of_fuel, when_done, av_samples_alloc, av_freep,
  av_frame_alloc, av_frame_free, calloc, free, avcodec_receive_packet, av_packet_unref,
  avformat_alloc_output_context2, avformat_free_context, avio_open, avio_closep,
  avcodec_alloc_context3, avcodec_free_context, swr_alloc_set_opts, swr_free, av_audio_fifo_alloc,
  av_audio_fifo_free,
}

-- A frame of libav, the data of a packet, the array of pointers to converted samples, the block of
-- converted samples that its first pointer points to, and what the
-- members of the server point to; `output_file` is the file that `pb` of the format context is.
pub data Resource : Type 0 where
  frame packet pointers sample_block format_context output_file codec_context resampler fifo :
      Resource

abbrev rank : Resource → ℕ
rank frame = 0
rank packet = 1
rank pointers = 2
rank sample_block = 3
rank format_context = 4
rank output_file = 5
rank codec_context = 6
rank resampler = 7
rank fifo = 8

pub data Effect : Type 0 where
  unchanged : Effect
  acquires releases : Resource → Effect

abbrev pub when : Bool → Effect → Effect
when test e = if test then e else unchanged

abbrev pub effect : Call → ℤ → Effect
effect c r = elim c as (λ _. Effect) [
  | av_frame_alloc ↦ when (is_set r) (acquires frame)
  | av_frame_free ↦ releases frame
  | avcodec_receive_packet ↦ (if is_set r then unchanged else acquires packet)
  | av_packet_unref ↦ releases packet
  | calloc _ ↦ when (is_set r) (acquires pointers)
  | free ↦ releases pointers
  | av_samples_alloc _ _ _ ↦ (if is_negative r then unchanged else acquires sample_block)
  | av_freep points ↦ when points (releases sample_block)
  | avformat_alloc_output_context2 _ _ ↦ when (is_set r) (acquires format_context)
  | avformat_free_context context ↦ when (is_set context) (releases format_context)
  | avio_open _ _ _ ↦ (if is_negative r then unchanged else acquires output_file)
  | avio_closep is_open ↦ when is_open (releases output_file)
  | avcodec_alloc_context3 _ ↦ when (is_set r) (acquires codec_context)
  | avcodec_free_context context ↦ when (is_set context) (releases codec_context)
  | swr_alloc_set_opts _ _ _ _ ↦ when (is_set r) (acquires resampler)
  | swr_free context ↦ when (is_set context) (releases resampler)
  | av_audio_fifo_alloc _ _ _ ↦ when (is_set r) (acquires fifo)
  | av_audio_fifo_free pointer ↦ when (is_set pointer) (releases fifo)
  | _ ↦ unchanged
]

abbrev pub unit : Resource → Resource → ℕ
unit k resource = if rank k == rank resource then 1 else 0

-- One more of the resource `k` than `n`, as it is seen in the count of `resource`.
abbrev pub plus : Resource → Resource → ℕ → ℕ
plus k resource n = n + unit k resource

abbrev account : Effect → Resource → Option ℕ → Option ℕ
account e resource none = none
account unchanged resource (some n) = some n
account (acquires k) resource (some n) = some (plus k resource n)
account (releases k) resource (some n) =
    if ltb n (unit k resource) then none else some (n - unit k resource)

unfoldable pub held : Resource → History → Option ℕ
held resource [] = some 0
held resource ((c, r) ∷ h) = account (effect c r) resource (held resource h)

-- The array of pointers to converted samples, and the block of the samples, more than `n`.
abbrev pub plus_converted : Resource → ℕ → ℕ
plus_converted resource n = plus sample_block resource (plus pointers resource n)

-- A claim on the result of a function that comes to its end.
abbrev pub WhenDone : {A : Type 0} → Outcome A → Type 0 → Type 0
WhenDone (done a) P = P
WhenDone undefined P = Unit {0}
WhenDone out_of_fuel P = Unit {0}

abbrev pub DoneHeld : {A : Type 0} → Resource → ℕ → Outcome A × History → Type 0
DoneHeld resource n r = WhenDone r.0 (held resource r.1 ≡ some n)

pub when_done-DoneHeld :
    {A B : Type 0} (resource : Resource) (n m : ℕ) (rest : A → M (Outcome B))
    (r : Outcome A × History)
    → DoneHeld resource n r
    → ((a : A) (h : History) → held resource h ≡ some n → DoneHeld resource m (rest a h))
    → DoneHeld resource m (when_done rest r.0 r.1)
when_done-DoneHeld resource n m rest (done a, h) before step = step a h before
when_done-DoneHeld resource n m rest (undefined, h) before step = tt
when_done-DoneHeld resource n m rest (out_of_fuel, h) before step = tt

module _ (resource : Resource) (c : Call) (r : ℤ) (h : History) (n : ℕ) where
  pub unchanged_held :
      effect c r ≡ unchanged → held resource h ≡ some n → held resource ((c, r) ∷ h) ≡ some n
  unfolding held
  unchanged_held e before = rw (before, e) refl

  pub acquired_held :
      (k : Resource)
      → effect c r ≡ acquires k
      → held resource h ≡ some n
      → held resource ((c, r) ∷ h) ≡ some (plus k resource n)
  unfolding held
  acquired_held k e before = rw (before, e) refl

  pub released_held :
      (k : Resource)
      → effect c r ≡ releases k
      → held resource h ≡ some (plus k resource n)
      → held resource ((c, r) ∷ h) ≡ some n
  unfolding held
  released_held k e before = rw (before, e) (ground arith)
