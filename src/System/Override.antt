-- ===== src/System/Override.antt =====
-- Which settings of a file count.
use Prim.Native.String.{String}
use mathlib.Core.Option
use audio_server.Common.{ℕ, ◌≡◌, refl, Option, none, some}
use audio_server.System.{Settings, Tree, default_settings, assign, system}

-- The second value, if the first can be read too.
infixl 5 ◌then◌
abbrev pub ◌then◌ {ℓ κ} : {A : Type ℓ} {B : Type κ} → Option A → Option B → Option B
◌then◌ none value = none
◌then◌ (some _) value = value

-- What the seven keys hold, each readable or not.
abbrev pub overridden :
    Option ℕ → Option String → Option String → Option ℕ → Option ℕ → Option ℕ → Option ℕ → Settings
overridden p u c b n w r = record {
  server_port = Option.get_or (p) default_settings.server_port;
  output_url = Option.get_or (p then u) default_settings.output_url;
  codec_name = Option.get_or (p then u then c) default_settings.codec_name;
  bitrate = Option.get_or (p then u then c then b) default_settings.bitrate;
  channels = Option.get_or (p then u then c then b then n) default_settings.channels;
  bits_per_sample =
      Option.get_or (p then u then c then b then n then w) default_settings.bits_per_sample;
  sample_rate =
      Option.get_or (p then u then c then b then n then w then r) default_settings.sample_rate;
}

assigned :
    (p : Option ℕ) (u c : Option String) (b n w r : Option ℕ)
    → assign p
        (λ value members. record members { server_port = value })
        (assign u
          (λ value members. record members { output_url = value })
          (assign c
            (λ value members. record members { codec_name = value })
            (assign b
              (λ value members. record members { bitrate = value })
              (assign n
                (λ value members. record members { channels = value })
                (assign w
                  (λ value members. record members { bits_per_sample = value })
                  (assign r
                    (λ value members. record members { sample_rate = value })
                    (λ members. members)))))))
        default_settings
      ≡ overridden p u c b n w r
assigned none u c b n w r = refl
assigned (some x0) none c b n w r = refl
assigned (some x0) (some x1) none b n w r = refl
assigned (some x0) (some x1) (some x2) none n w r = refl
assigned (some x0) (some x1) (some x2) (some x3) none w r = refl
assigned (some x0) (some x1) (some x2) (some x3) (some x4) none r = refl
assigned (some x0) (some x1) (some x2) (some x3) (some x4) (some x5) none = refl
assigned (some x0) (some x1) (some x2) (some x3) (some x4) (some x5) (some x6) = refl

-- A setting of the file counts when its key and all the keys before it can be read, in the order
-- port, URL, codec, bit rate, channels, bits and rate. Every other setting keeps its default.
pub system-overridden :
    (root : Tree)
    → system (some root)
      ≡ overridden
          (root.get_short "server_port")
          (root.get_string "output_url")
          (root.get_string "codec_name")
          (root.get_int "bitrate")
          (root.get_int "channels")
          (root.get_int "bits_per_sample")
          (root.get_int "sample_rate")
unfolding system
system-overridden root =
    assigned (root.get_short "server_port") (root.get_string "output_url")
      (root.get_string "codec_name") (root.get_int "bitrate") (root.get_int "channels")
      (root.get_int "bits_per_sample") (root.get_int "sample_rate")
