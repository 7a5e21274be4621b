-- ===== src/Tests/JsonTests.antt =====
-- src/ipc/json.cpp at concrete texts and values.

use arcade_launcher_stream_e.Json.Maps.{keys_sorted}
use arcade_launcher_stream_e.Base.Result.{out_of_fuel}
use arcade_launcher_stream_e.Json.Sound.{parse_result-ne-out_of_fuel}
use arcade_launcher_stream_e.Json.Numbers.{stops, is_portable_num}
use arcade_launcher_stream_e.Json.RoundTrip.{is_portable, parse-dump}
use arcade_launcher_stream_e.Base.{
  Bytes, codes, true, [], ◌∷◌, ◌++◌, some, ◌≡◌, ◌≢◌, refl, bytes_eq, is_empty, hex_digit, hex_value,
  atoi, to_string, to_string_ℤ, bytes_lt, is_space, is_digit,
}
use arcade_launcher_stream_e.Json.Text.{
  parse_str, str_loop, str_round, escape_round, unicode_escape, hex4, hex_loop, low_surrogate,
  encode_utf8,
}
use arcade_launcher_stream_e.Json.Floats.{prints_whole, is_number_byte}
use arcade_launcher_stream_e.Json.Parser.{
  parse, parse_result, value, number, number_token, after_number, finish,
}
use arcade_launcher_stream_e.Json.Dump.{dump, dump_num, escape, escape_byte}
use arcade_launcher_stream_e.Json.{
  Value, bool, num, str, arr, obj, no_items, item, no_fields, field, set_field, push_item,
}
use arcade_launcher_stream_e.Sample.{small, small-Ieee}

-- {"a": [1, -2, "\n"], "b": true}
abbrev sample : Value
sample = obj (
    field (codes "a") (arr (item (num 2) (item (num 3) (item (str (10 ∷ 233 ∷ [])) no_items))))
      (field (codes "b") (bool true) no_fields))

dump-sample : dump sample ≡ codes "{\"a\":[1,-2,\"\\n" ++ (233 ∷ codes "\"],\"b\":true}")
unfolding small dump dump_num prints_whole to_string_ℤ to_string escape escape_byte hex_digit
dump-sample = refl

parse_keys :
    parse (codes " {\"b\" : null, \"a\":[1,-23] ,\"b\":\"\\u0041\\ud83d\\ude00\"} ")
    ≡ some (
        obj (
          field
            (codes "a")
            (arr (item (num 2) (item (num 45) no_items)))
            (field (codes "b") (str (65 ∷ 240 ∷ 159 ∷ 152 ∷ 128 ∷ [])) no_fields)))
unfolding small parse parse_result value number number_token after_number is_number_byte parse_str
    str_loop str_round escape_round unicode_escape hex4 hex_loop hex_value low_surrogate encode_utf8
    set_field push_item finish bytes_eq bytes_lt is_empty is_space atoi is_digit
parse_keys = refl

abbrev text : Bytes
text = codes " {\"b\" : null, \"a\":[1,-23] ,\"b\":\"\\u0041\\ud83d\\ude00\"} "

abbrev parsed : Value
parsed = obj (
    field (codes "a") (arr (item (num 2) (item (num 45) no_items)))
      (field (codes "b") (str (65 ∷ 240 ∷ 159 ∷ 152 ∷ 128 ∷ [])) no_fields))

sample-is_portable : is_portable sample ≡ true
unfolding small is_portable keys_sorted is_portable_num bytes_lt
sample-is_portable = refl

parse-dump_example : parse (dump sample) ≡ some sample
parse-dump_example = parse-dump small-Ieee sample sample-is_portable

space_stops : stops (codes " x") ≡ true
unfolding stops is_number_byte is_digit
space_stops = refl

parse_result-ne-out_of_fuel_example : parse_result (codes "[[[1") ≢ out_of_fuel
parse_result-ne-out_of_fuel_example = parse_result-ne-out_of_fuel (codes "[[[1")
