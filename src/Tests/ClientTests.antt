-- ===== src/Tests/ClientTests.antt =====
-- src/client/stream_config.cpp on two settings objects.
use arcade_launcher_stream_e.Sample.{small, small-Ieee}
use arcade_launcher_stream_e.Json.{
  Value, Fields, obj, field, num, no_fields, is_object, get_num, get_str, get_bool, find,
  find_field, num_or, str_or, bool_or, is_null,
}
use arcade_launcher_stream_e.Client.StreamConfig.Bounds.{InBounds}
use arcade_launcher_stream_e.Client.StreamConfig.Given.{Given, validate_stream_settings_iff}
use arcade_launcher_stream_e.Client.StreamConfig.{
  StreamSettings, validate_stream_settings, accepted, read_settings, check_settings, int_or,
  outside, is_known_mode, bad_params,
}
use arcade_launcher_stream_e.Base.{codes, true, ◌≡◌, ◌↔◌, refl, bytes_eq, pos}

abbrev small_window : StreamSettings
small_window = record {
  width = pos 256;
  height = pos 144;
  fps = pos 10;
  bitrate_kbps = pos 500;
  display_mode = codes "windowed";
  hdr = true;
}

-- {"fps": 9}
abbrev slow_fields : Fields
slow_fields = field (codes "fps") (num 18) no_fields

abbrev slow : Value
slow = obj slow_fields

validate_stream_settings_iff_example :
    (validate_stream_settings (obj slow_fields) ≡ accepted small_window)
    ↔ (InBounds small_window × Given slow_fields small_window)
validate_stream_settings_iff_example =
    validate_stream_settings_iff small-Ieee slow_fields small_window

slow_refused : validate_stream_settings slow ≡ bad_params (codes "fps out of range [10,240]")
unfolding small validate_stream_settings check_settings read_settings int_or outside is_known_mode
    get_num get_str get_bool find find_field bytes_eq num_or str_or bool_or is_null is_object
slow_refused = refl
