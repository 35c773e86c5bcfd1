-- ===== src/Tests/Inputs.antt =====
-- The inputs: messages as bytes, and objects as they are constructed.
use audio_server.Common.{ℕ, ◌≡◌, refl, List, [], ◌∷◌, arith}
use audio_server.Common.Int.{ℤ, pos, negsuc}
use audio_server.Ffmpeg.{Library, avcodec_parameters_from_context, get_flags, avio_open}
use audio_server.Session.{Media, Shared}
use audio_server.Common.Words.{IsByte}
use audio_server.Common.Buffers.{Buffer, of_bytes, of_bytes-IsByte}
use audio_server.Message.{CommonMessage, common_message}
use audio_server.Protocol.Frame.{Parameter, parameter}

abbrev pub blank : Buffer
blank _ = 0

pub blank-IsByte : (j : ℕ) → IsByte (blank j)
blank-IsByte j = omega arith

-- Storage of a message, with what an earlier message may have left in it.
abbrev pub storage : Buffer → CommonMessage
storage left_behind = record {
  message_body_length = 77;
  message_data = left_behind;
  message_type = 9;
  protocol_version = 3;
  parameter_positions = 4 ∷ [];
}

abbrev pub fresh : CommonMessage
fresh = record {
  message_body_length = 77;
  message_data = blank;
  message_type = 0;
  protocol_version = 3;
  parameter_positions = [];
}

fresh_lem : common_message (storage blank) ≡ fresh
unfolding common_message
fresh_lem = refl

-- The setup of channel 7.
abbrev pub setup_bytes : List ℕ
setup_bytes = 1 ∷ 0 ∷ 0x10 ∷ 0 ∷ 6 ∷ 0 ∷ 1 ∷ 0 ∷ 2 ∷ 0 ∷ 7 ∷ []

abbrev pub setup_message : Buffer
setup_message = of_bytes setup_bytes

pub setup_message-IsByte : (j : ℕ) → IsByte (setup_message j)
setup_message-IsByte = of_bytes-IsByte setup_bytes (omega arith)

abbrev pub channel_seven : Parameter
channel_seven = parameter 1 (0 ∷ 7 ∷ [])

-- Four samples of sound, 16 bytes.
abbrev pub samples : Buffer
samples = of_bytes (1 ∷ 2 ∷ 3 ∷ 4 ∷ 5 ∷ 6 ∷ 7 ∷ 8 ∷ 9 ∷ 10 ∷ 11 ∷ 12 ∷ 13 ∷ 14 ∷ 15 ∷ 16 ∷ [])

pub samples-IsByte : (j : ℕ) → IsByte (samples j)
samples-IsByte = of_bytes-IsByte _ (omega arith)

-- A library whose calls return 1.
abbrev pub steady : Library
steady history c = pos 1

-- A library whose calls succeed, for an output that is a file.
abbrev pub succeeding : Library
succeeding history c = elim c as (λ _. ℤ) [
  | avcodec_parameters_from_context _ _ ↦ pos 0
  | get_flags _ ↦ pos 0
  | _ ↦ pos 1
]

-- A library that opens no file.
abbrev pub without_file : Library
without_file history c = elim c as (λ _. ℤ) [
  | avcodec_parameters_from_context _ _ ↦ pos 0
  | get_flags _ ↦ pos 0
  | avio_open _ _ _ ↦ negsuc 1
  | _ ↦ pos 1
]

abbrev pub stereo : Media
stereo = record {
  enc_ctx = record {
    channels = pos 2;
    sample_fmt = pos 8;
    channel_layout = 3;
    sample_rate = pos 48000;
    bit_rate = pos 64000;
    time_base = (pos 1, pos 48000);
    frame_size = 1152;
  };
  resample_context = pos 1;
  audio_fifo = pos 0;
}

abbrev pub unused : Shared
unused = record { history = []; pts = 0 }
