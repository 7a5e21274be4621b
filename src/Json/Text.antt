-- ===== src/Json/Text.antt =====
-- The string part of `Parser` in src/ipc/json.cpp: `encode_utf8`, `hex4` and `str`. The position
-- `i` is the input that is left, and `ok == false` is the outcome `failed`.
pub mod RoundTrip
pub mod Consumes
use arcade_launcher_stream_e.Base.{
  ℕ, zero, suc, ◌+◌, ◌-◌, ◌*◌, ◌/◌, ◌%◌, Bytes, ◌&&◌, [], ◌∷◌, ◌++◌, leb, ◌==◌, if◌then◌else◌,
  length, Option, none, some, hex_value,
}
use arcade_launcher_stream_e.Base.Result.{Result, ok, failed, out_of_fuel}

unfoldable pub encode_utf8 : ℕ → Bytes
encode_utf8 cp =
    if leb cp 0x7f
    then cp ∷ []
    else if leb cp 0x7ff
    then (0xc0 + cp / 64) ∷ (0x80 + cp % 64) ∷ []
    else if leb cp 0xffff
    then (0xe0 + cp / 4096) ∷ (0x80 + cp / 64 % 64) ∷ (0x80 + cp % 64) ∷ []
    else (0xf0 + cp / 262144)
      ∷ (0x80 + cp / 4096 % 64)
      ∷ (0x80 + cp / 64 % 64)
      ∷ (0x80 + cp % 64)
      ∷ []

-- The loop of `hex4`, with the rounds left and the value so far.
unfoldable pub hex_loop : ℕ → ℕ → Bytes → Option (ℕ × Bytes)
hex_loop zero v s = some (v, s)
hex_loop (suc n) v [] = none
hex_loop (suc n) v (c ∷ s) = elim (hex_value c) [ none ↦ none | some d ↦ hex_loop n (v * 16 + d) s ]

unfoldable pub hex4 : Bytes → Option (ℕ × Bytes)
hex4 s = hex_loop 4 0 s

-- What one round of the loop of `str` does: it ends the string, appends bytes, or fails.
pub data Round : Type 0 where
  stop : Bytes → Round
  append : Bytes → Bytes → Round
  bad : Round

-- the second half of a surrogate pair; `hi` is the first
unfoldable pub low_surrogate : ℕ → Bytes → Round
low_surrogate hi (b ∷ u ∷ s) =
    if b == b'\\' && u == b'u'
    then elim (hex4 s) [
      | none ↦ bad
      | some (lo, rest) ↦
          if leb 0xdc00 lo && leb lo 0xdfff
          then append (encode_utf8 (0x10000 + (hi - 0xd800) * 1024 + (lo - 0xdc00))) rest
          else bad
    ]
    else bad
low_surrogate hi _ = bad

-- behind a `\u`
unfoldable pub unicode_escape : Bytes → Round
unicode_escape s = elim (hex4 s) [
  | none ↦ bad
  | some (cp, rest) ↦
      if leb 0xd800 cp && leb cp 0xdbff then low_surrogate cp rest else append (encode_utf8 cp) rest
]

-- the switch behind a backslash
unfoldable pub escape_round : Bytes → Round
escape_round [] = bad
escape_round (e ∷ s) =
    if e == b'"'
    then append (b'"' ∷ []) s
    else if e == b'\\'
    then append (b'\\' ∷ []) s
    else if e == b'/'
    then append (b'/' ∷ []) s
    else if e == b'b'
    then append (8 ∷ []) s
    else if e == b'f'
    then append (12 ∷ []) s
    else if e == b'n'
    then append (b'\n' ∷ []) s
    else if e == b'r'
    then append (b'\r' ∷ []) s
    else if e == b't'
    then append (b'\t' ∷ []) s
    else if e == b'u'
    then unicode_escape s
    else bad

unfoldable pub str_round : Bytes → Round
str_round [] = bad
str_round (c ∷ s) =
    if c == b'"' then stop s else if c == b'\\' then escape_round s else append (c ∷ []) s

-- The loop of `str`. Every round reads a byte, so the length of the input is enough fuel.
unfoldable pub str_loop : ℕ → Bytes → Bytes → Result (Bytes × Bytes)
str_loop zero out s = out_of_fuel
str_loop (suc f) out s = elim (str_round s) [
  | stop rest ↦ ok (out, rest)
  | append bs rest ↦ str_loop f (out ++ bs) rest
  | bad ↦ failed
]

unfoldable pub parse_str : Bytes → Result (Bytes × Bytes)
parse_str [] = failed
parse_str (c ∷ s) = if c == b'"' then str_loop (suc (length s)) [] s else failed
