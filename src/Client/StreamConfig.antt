-- ===== src/Client/StreamConfig.antt =====
-- `validate_stream_settings` of src/client/stream_config.cpp. An `int` is a signed integer here,
-- and `static_cast<int>` of a double is the operation `to_int`.
use arcade_launcher_stream_e.Base.{
  ℕ, Bytes, codes, Bool, false, not, ◌||◌, if◌then◌else◌, bytes_eq, ℤ, pos, below, above,
}
pub mod Bounds
pub mod Given
use arcade_launcher_stream_e.Json.{Value, get_str, get_num, get_bool, is_null, is_object}
use arcade_launcher_stream_e.Json.Floats.{Floats}

pub record StreamSettings : Type 0 where
  pub width : ℤ
  pub height : ℤ
  pub fps : ℤ
  pub bitrate_kbps : ℤ
  pub display_mode : Bytes
  pub hdr : Bool

abbrev pub default_settings : StreamSettings
default_settings = record {
  width = pos 1920;
  height = pos 1080;
  fps = pos 60;
  bitrate_kbps = pos 20000;
  display_mode = codes "fullscreen";
  hdr = false;
}

unfoldable pub is_known_mode : Bytes → Bool
is_known_mode m =
    bytes_eq m (codes "windowed")
    || bytes_eq m (codes "fullscreen")
    || bytes_eq m (codes "borderless")

-- `true` with `out`, or `false` with `msg`; `code` is "bad_params" in every failure.
pub data Checked : Type 0 where
  accepted : StreamSettings → Checked
  bad_params : Bytes → Checked

-- The integer under `key`, or the default `d`, which the call converts to a double and back.
unfoldable pub int_or : ⦃fl : Floats⦄ → Value → Bytes → ℤ → ℤ
int_or ⦃fl⦄ settings key d = fl.to_int (get_num settings key (fl.of_ℤ d))

-- The settings before the range checks.
unfoldable pub read_settings : ⦃fl : Floats⦄ → Value → StreamSettings
read_settings settings = record {
  width = int_or settings (codes "width") (pos 1920);
  height = int_or settings (codes "height") (pos 1080);
  fps = int_or settings (codes "fps") (pos 60);
  bitrate_kbps = int_or settings (codes "bitrateKbps") (pos 20000);
  display_mode = get_str settings (codes "displayMode") (codes "fullscreen");
  hdr = get_bool settings (codes "hdr") false;
}

-- x < lo || x > hi
unfoldable pub outside : ℕ → ℕ → ℤ → Bool
outside lo hi x = below x lo || above x hi

unfoldable pub check_settings : StreamSettings → Checked
check_settings s =
    if outside 256 7680 s.width
    then bad_params (codes "width out of range [256,7680]")
    else if outside 144 4320 s.height
    then bad_params (codes "height out of range [144,4320]")
    else if outside 10 240 s.fps
    then bad_params (codes "fps out of range [10,240]")
    else if outside 500 500000 s.bitrate_kbps
    then bad_params (codes "bitrateKbps out of range [500,500000]")
    else if not (is_known_mode s.display_mode)
    then bad_params (codes "displayMode must be windowed|fullscreen|borderless")
    else accepted s

unfoldable pub validate_stream_settings : ⦃fl : Floats⦄ → Value → Checked
validate_stream_settings settings =
    if is_null settings
    then accepted default_settings
    else if not (is_object settings)
    then bad_params (codes "settings must be an object")
    else check_settings (read_settings settings)
