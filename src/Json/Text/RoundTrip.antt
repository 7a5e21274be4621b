-- ===== src/Json/Text/RoundTrip.antt =====
-- An escaped string is read back by `str`, whatever its bytes are.
use arcade_launcher_stream_e.Base.{
  ℕ, zero, suc, ◌/◌, ◌%◌, ◌<◌, Bytes, [], ◌∷◌, ◌++◌, length, append-nil, some, ◌≡◌, arith,
  Bool-cases, append_assoc, ltb, inl, inr, ◌*◌, ◌∙◌, ◌≤◌, ◌+◌, length-append, refl, hex_value,
  hex_digit, hex_value-hex_digit,
}
use arcade_launcher_stream_e.Base.Result.{ok}
use arcade_launcher_stream_e.Json.Dump.{escape_byte, escape_bytes, escape}
use arcade_launcher_stream_e.Json.Text.{
  append, unicode_escape, escape_round, str_round, str_loop, hex4, encode_utf8, hex_loop, parse_str,
}

hex4_lem :
    (a b c d x y z w : ℕ) (rest : Bytes)
    → hex_value a ≡ some x
    → hex_value b ≡ some y
    → hex_value c ≡ some z
    → hex_value d ≡ some w
    → hex4 (a ∷ b ∷ c ∷ d ∷ rest) ≡ some ((((0 * 16 + x) * 16 + y) * 16 + z) * 16 + w, rest)
unfolding hex4 hex_loop
hex4_lem a b c d x y z w rest p q r t =
    rw (p, hex_loop) (rw (q, hex_loop) (rw (r, hex_loop) (rw (t, hex_loop))))

unicode_escape_control :
    (c : ℕ) (rest : Bytes)
    → c < 32
    → unicode_escape (b'0' ∷ b'0' ∷ hex_digit (c / 16) ∷ hex_digit (c % 16) ∷ rest)
      ≡ append (c ∷ []) rest
unfolding unicode_escape encode_utf8
unicode_escape_control c rest h =
    let digits =
      hex4_lem b'0' b'0' (hex_digit (c / 16)) (hex_digit (c % 16)) 0 0 (c / 16) (c % 16) rest
        (unfold hex_value in refl) (unfold hex_value in refl)
        (hex_value-hex_digit (c / 16) (omega arith)) (hex_value-hex_digit (c % 16) (omega arith)) in
    let whole : (((0 * 16 + 0) * 16 + 0) * 16 + c / 16) * 16 + c % 16 ≡ c = omega arith in
    rw (digits, unicode_escape) (rw whole (ground arith))

str_round-escape_byte :
    (c : ℕ) (rest : Bytes) → str_round (escape_byte c ++ rest) ≡ append (c ∷ []) rest
unfolding str_round escape_byte escape_round
str_round-escape_byte c rest = elim (Bool-cases (ltb c 32)) [
  | inl low ↦ ground (arith, unicode_escape_control c rest)
  | inr high ↦ ground arith
]

length-escape_byte : (c : ℕ) → 0 < length (escape_byte c)
unfolding escape_byte
length-escape_byte c = ground arith

str_loop_step :
    (c : ℕ) (s out rest : Bytes) (f : ℕ)
    → str_loop (suc f) out (escape_bytes (c ∷ s) ++ (b'"' ∷ rest))
      ≡ str_loop f (out ++ c ∷ []) (escape_bytes s ++ (b'"' ∷ rest))
unfolding str_loop escape_bytes
str_loop_step c s out rest f =
    rw append_assoc (rw (str_round-escape_byte c (escape_bytes s ++ (b'"' ∷ rest)), str_loop))

pub str_loop-escape_bytes :
    (s out rest : Bytes) (f : ℕ)
    → length s < f
    → str_loop f out (escape_bytes s ++ (b'"' ∷ rest)) ≡ ok (out ++ s, rest)
str_loop-escape_bytes s out rest zero h = elim h [ ]
str_loop-escape_bytes [] out rest (suc f) h =
    unfold str_loop escape_bytes str_round in rw append-nil
str_loop-escape_bytes (c ∷ s) out rest (suc f) h =
    str_loop_step c s out rest f
    ∙ str_loop-escape_bytes s (out ++ c ∷ []) rest f (omega arith)
    ∙ rw append_assoc

length-escape_bytes : (s : Bytes) → length s ≤ length (escape_bytes s)
unfolding escape_bytes
length-escape_bytes [] = omega arith
length-escape_bytes (c ∷ s) = omega (
  arith,
  length-append {0} (escape_byte c) (escape_bytes s),
  length-escape_byte c,
  length-escape_bytes s,
)

-- `str` reads an escaped string back, and leaves what follows it.
pub parse_str-escape : (s rest : Bytes) → parse_str (escape s ++ rest) ≡ ok (s, rest)
unfolding parse_str escape
parse_str-escape s rest = rw append_assoc (
    str_loop-escape_bytes s [] rest _
      (omega (arith, length-append {0} (escape_bytes s) (b'"' ∷ rest), length-escape_bytes s)))
