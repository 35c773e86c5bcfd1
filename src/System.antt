-- ===== src/System.antt =====
-- System.h and System.cpp: the settings, with their defaults, the file that overrides them, and the
-- getters. The
-- property tree of boost is a parameter: what each `get` of a key returns, none for an exception.
pub mod Override
use Prim.Native.String.{String}
use audio_server.Common.{ℕ, ◌-◌, ◌^◌, Option, none, some, ltb, if◌then◌else◌}
use audio_server.Common.Int.{ℤ, pos, negsuc}

-- The members of the class.
pub record Settings : Type 0 where
  pub server_port : ℕ
  pub output_url : String
  pub codec_name : String
  pub bitrate : ℕ
  pub channels : ℕ
  pub bits_per_sample : ℕ
  pub sample_rate : ℕ

-- `root.get<unsigned short>`, `root.get<string>` and `root.get<unsigned int>`.
pub record Tree : Type 0 where
  pub get_short : String → Option ℕ
  pub get_string : String → Option String
  pub get_int : String → Option ℕ

abbrev pub default_settings : Settings
default_settings = record {
  server_port = 5678;
  output_url = "test.ts";
  codec_name = "mp3";
  bitrate = 64000;
  channels = 2;
  bits_per_sample = 16;
  sample_rate = 48000;
}

-- An assignment from a `get`, with the statements after it, as a function on the members. An
-- exception ends the `try` block.
abbrev pub assign :
    {A : Type 0}
    → Option A
    → (A → Settings → Settings)
    → (Settings → Settings)
    → Settings
    → Settings
assign none set rest members = members
assign (some value) set rest members = rest (set value members)

-- `System::System()`; the file may also be missing or no JSON.
unfoldable pub system : Option Tree → Settings
system none = default_settings
system (some root) =
    assign (root.get_short "server_port") (λ value members. record members { server_port = value })
      (assign (root.get_string "output_url")
        (λ value members. record members { output_url = value })
        (assign (root.get_string "codec_name")
          (λ value members. record members { codec_name = value })
          (assign (root.get_int "bitrate") (λ value members. record members { bitrate = value })
            (assign (root.get_int "channels") (λ value members. record members { channels = value })
              (assign (root.get_int "bits_per_sample")
                (λ value members. record members { bits_per_sample = value })
                (assign (root.get_int "sample_rate")
                  (λ value members. record members { sample_rate = value })
                  (λ members. members)))))))
      default_settings

-- The conversion of an `unsigned int` of the members to the `int` that the getters return.
abbrev pub as_int : ℕ → ℤ
as_int n = if ltb n (2 ^ 31) then pos n else negsuc (2 ^ 32 - 1 - n)

-- The getters whose type is not that of their member.
unfoldable pub get_bitrate : Settings → ℤ
get_bitrate members = as_int members.bitrate

unfoldable pub get_bits_per_sample : Settings → ℤ
get_bits_per_sample members = as_int members.bits_per_sample

unfoldable pub get_sample_rate : Settings → ℤ
get_sample_rate members = as_int members.sample_rate
