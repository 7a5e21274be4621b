-- ===== src/Client/Session/Configuration.antt =====
-- What `run` gives to `LiStartConnection`, src/client/stream_session.cpp, and the id of the key for
-- remote input, src/client/stream_main.cpp. The constants of Limelight.h are a parameter.
use arcade_launcher_stream_e.Client.Session.{StartInfo}
use arcade_launcher_stream_e.Net.Pairing.{zeros}
use arcade_launcher_stream_e.Base.{
  ℕ, suc, ◌+◌, ◌-◌, ◌*◌, ◌/◌, ◌%◌, ◌^◌, ◌<◌, Bytes, [], ◌∷◌, if◌then◌else◌, Option, none, some, ◌≡◌,
  refl, arith, is_empty, ℤ, pos, negsuc, take,
}

-- `make_ri_key_id`: the bytes in big-endian order, less the top bit
unfoldable pub make_ri_key_id : Bytes → ℕ
make_ri_key_id (a ∷ b ∷ c ∷ d ∷ _) = (a * 2 ^ 24 + b * 2 ^ 16 + c * 2 ^ 8 + d) % 2 ^ 31
make_ri_key_id _ = 0

pub record Constants : Type 0 where
  pub stream_cfg_auto : ℕ
  pub audio_configuration_stereo : ℕ
  pub video_format_h264 : ℕ
  pub colorspace_rec_709 : ℕ
  pub color_range_limited : ℕ
  pub encflg_audio : ℕ

pub record StreamConfiguration : Type 0 where
  pub width : ℤ
  pub height : ℤ
  pub fps : ℤ
  pub bitrate : ℤ
  pub packet_size : ℕ
  pub streaming_remotely : ℕ
  pub audio_configuration : ℕ
  pub supported_video_formats : ℕ
  pub color_space : ℕ
  pub color_range : ℕ
  pub encryption_flags : ℕ
  pub remote_input_aes_key : Bytes
  pub remote_input_aes_iv : Bytes

-- The 16 bytes of the IV: the id in big-endian order, and zeros. The id is not negative.
unfoldable pub aes_iv : ℕ → Bytes
unfolding zeros
aes_iv id =
    (id / 2 ^ 24 % 2 ^ 8) ∷ (id / 2 ^ 16 % 2 ^ 8) ∷ (id / 2 ^ 8 % 2 ^ 8) ∷ (id % 2 ^ 8) ∷ zeros 12

-- The bits of an `int`
abbrev pub bits : ℤ → ℕ
bits (pos n) = n
bits (negsuc n) = 2 ^ 32 - suc n

unfoldable pub stream_configuration : Constants → StartInfo → StreamConfiguration
stream_configuration c info = record {
  width = info.settings.width;
  height = info.settings.height;
  fps = info.settings.fps;
  bitrate = info.settings.bitrate_kbps;
  packet_size = 1024;
  streaming_remotely = c.stream_cfg_auto;
  audio_configuration = c.audio_configuration_stereo;
  supported_video_formats = c.video_format_h264;
  color_space = c.colorspace_rec_709;
  color_range = c.color_range_limited;
  encryption_flags = c.encflg_audio;
  remote_input_aes_key = take 16 info.ri_key;
  remote_input_aes_iv = aes_iv (bits info.ri_key_id);
}

pub record ServerInformation : Type 0 where
  pub address : Bytes
  pub app_version : Bytes
  pub gfe_version : Option Bytes
  pub rtsp_session_url : Bytes
  pub server_codec_mode_support : ℤ

unfoldable pub server_information : StartInfo → ServerInformation
server_information info = record {
  address = info.host;
  app_version = info.server_app_version;
  gfe_version = if is_empty info.gfe_version then none else some info.gfe_version;
  rtsp_session_url = info.rtsp_session_url;
  server_codec_mode_support = info.server_codec_mode_support;
}

-- An `int` holds the id, and it is not negative.
pub make_ri_key_id_bound : (four : Bytes) → make_ri_key_id four < 2 ^ 31
unfolding make_ri_key_id
make_ri_key_id_bound (a ∷ b ∷ c ∷ d ∷ s) = omega arith
make_ri_key_id_bound (a ∷ b ∷ c ∷ []) = omega arith
make_ri_key_id_bound (a ∷ b ∷ []) = omega arith
make_ri_key_id_bound (a ∷ []) = omega arith
make_ri_key_id_bound [] = omega arith

-- The id of four bytes is their big-endian number without its top bit, and the IV of the connection
-- is these four bytes, the first without its top bit, and 12 zeros.
pub aes_iv-make_ri_key_id :
    (a b c d : ℕ) (rest : Bytes)
    → a < 256
    → b < 256
    → c < 256
    → d < 256
    → (make_ri_key_id (a ∷ b ∷ c ∷ d ∷ rest) ≡ a % 128 * 2 ^ 24 + b * 2 ^ 16 + c * 2 ^ 8 + d)
      × (aes_iv (make_ri_key_id (a ∷ b ∷ c ∷ d ∷ rest))
          ≡ a % 128 ∷ b ∷ c ∷ d ∷ 0 ∷ 0 ∷ 0 ∷ 0 ∷ 0 ∷ 0 ∷ 0 ∷ 0 ∷ 0 ∷ 0 ∷ 0 ∷ 0 ∷ [])
unfolding make_ri_key_id aes_iv zeros
aes_iv-make_ri_key_id a b c d rest ha hb hc hd =
    let n = (a * 2 ^ 24 + b * 2 ^ 16 + c * 2 ^ 8 + d) % 2 ^ 31 in
    let whole : n ≡ a % 128 * 2 ^ 24 + b * 2 ^ 16 + c * 2 ^ 8 + d = omega arith in
    let first : n / 2 ^ 24 % 2 ^ 8 ≡ a % 128 = omega arith in
    let second : n / 2 ^ 16 % 2 ^ 8 ≡ b = omega arith in
    let third : n / 2 ^ 8 % 2 ^ 8 ≡ c = omega arith in
    let fourth : n % 2 ^ 8 ≡ d = omega arith in (whole, rw (first, second, third, fourth) refl)
