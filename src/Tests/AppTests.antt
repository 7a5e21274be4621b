-- ===== src/Tests/AppTests.antt =====
-- src/net/nv_applist.cpp on a short answer.
use arcade_launcher_stream_e.Net.Xml.{
  xml_text, find_start_tag, is_start_tag, head_ends_name, ends_name, split_at, split_before,
  ends_in_slash, decode_entities, decode_from,
}
use arcade_launcher_stream_e.Net.AppList.{
  AppInfo, parse_app_list, app_loop, find_app_body, over_found, over_body, keep_app, read_app_info,
}
use arcade_launcher_stream_e.Net.AppList.Listed.{Listed, parse_app_list-Ensures}
use arcade_launcher_stream_e.Base.Result.{ok, Ensures}
use arcade_launcher_stream_e.Base.{
  Bytes, codes, false, [], ◌∷◌, ◌++◌, ◌≡◌, refl, bytes_eq, is_empty, starts_with, pos, atoi,
  is_digit, skip_spaces, signed_value, digits_value,
}

abbrev listing : Bytes
listing =
    codes "<root status_code=\"200\"><App><AppTitle>Desktop</AppTitle><ID>7</ID></App>"
    ++ codes "<App><AppTitle>Draft</AppTitle></App></root>"

parse_app_list-Ensures_example : Ensures Listed (parse_app_list listing)
parse_app_list-Ensures_example = parse_app_list-Ensures listing

abbrev desktop_app : AppInfo
desktop_app = record { id = pos 7; title = codes "Desktop"; hdr_supported = false }

listing-parsed : parse_app_list listing ≡ ok (desktop_app ∷ [])
unfolding parse_app_list app_loop find_app_body over_found over_body keep_app read_app_info xml_text
    find_start_tag is_start_tag head_ends_name ends_name starts_with split_at split_before
    ends_in_slash decode_entities decode_from atoi skip_spaces signed_value digits_value is_digit
    is_empty bytes_eq
listing-parsed = refl
