-- ===== src/Json/Parser.antt =====
-- The value part of the recursive-descent `Parser` of src/ipc/json.cpp. The position `i` is the
-- input that is left, and `ok == false` is the outcome `failed`: every caller returns at once on it.
use arcade_launcher_stream_e.Base.{
  ℕ, zero, suc, ◌+◌, ◌*◌, Bytes, codes, is_empty, is_digit, Bool, true, false, ◌||◌, [], ◌∷◌, ◌==◌,
  if◌then◌else◌, length, Option, none, some,
}
use arcade_launcher_stream_e.Base.Result.{Result, ok, failed, out_of_fuel, ◌>>=◌}
use arcade_launcher_stream_e.Json.{
  Value, Items, Fields, null, bool, num, str, arr, obj, no_items, no_fields, push_item, set_field,
}
use arcade_launcher_stream_e.Json.Floats.{Floats, is_number_byte}
use arcade_launcher_stream_e.Json.Text.{parse_str}

unfoldable pub is_space : ℕ → Bool
is_space c = c == b' ' || c == b'\t' || c == b'\n' || c == b'\r'

unfoldable pub ws : Bytes → Bytes
unfolding is_space
ws [] = []
ws (c ∷ s) = if is_space c then ws s else c ∷ s

-- The loop of `number`; the optional first '-' is among the bytes that it passes.
unfoldable pub number_token : Bytes → Bytes
number_token [] = []
number_token (c ∷ s) = if is_number_byte c then c ∷ number_token s else []

unfoldable pub after_number : Bytes → Bytes
after_number [] = []
after_number (c ∷ s) = if is_number_byte c then after_number s else c ∷ s

unfoldable pub number : ⦃fl : Floats⦄ → Bytes → Result (Value × Bytes)
unfolding number_token after_number
number ⦃fl⦄ s =
    let tok = number_token s in
    if is_empty tok
    then failed
    else if fl.strtod_length tok == length tok
    then ok (num (fl.strtod_value tok), after_number s)
    else failed

unfoldable pub strip_prefix : Bytes → Bytes → Option Bytes
strip_prefix [] s = some s
strip_prefix (p ∷ ps) [] = none
strip_prefix (p ∷ ps) (c ∷ s) = if p == c then strip_prefix ps s else none

unfoldable pub literal : Bytes → Value → Bytes → Result (Value × Bytes)
unfolding strip_prefix
literal lit v s = elim (strip_prefix lit s) [ none ↦ failed | some rest ↦ ok (v, rest) ]

-- The cases of the switch in `value`.
pub data Kind : Type 0 where
  brace bracket quote letter_t letter_f letter_n digit other : Kind

unfoldable pub kind_of : ℕ → Kind
unfolding is_digit
kind_of c =
    if c == b'{'
    then brace
    else if c == b'['
    then bracket
    else if c == b'"'
    then quote
    else if c == b't'
    then letter_t
    else if c == b'f'
    then letter_f
    else if c == b'n'
    then letter_n
    else if c == b'-' || is_digit c
    then digit
    else other

-- What stands behind a member: a comma, the closing byte, or anything else.
pub data Next : Type 0 where
  comma : Bytes → Next
  close : Bytes → Next
  bad : Next

unfoldable pub next_of : ℕ → Bytes → Next
next_of end [] = bad
next_of end (c ∷ s) = if c == b',' then comma s else if c == end then close s else bad

-- The input behind byte `b`, if it stands first.
unfoldable pub expect : ℕ → Bytes → Result Bytes
expect b [] = failed
expect b (c ∷ s) = if c == b then ok s else failed

unfoldable pub starts : ℕ → Bytes → Bool
starts b [] = false
starts b (c ∷ s) = c == b

unfoldable pub tail : Bytes → Bytes
tail [] = []
tail (c ∷ s) = s

-- The switch of `value` on its first byte `c`, with the loops of `object` and `array` handed in.
unfoldable pub value_of_kind :
    ⦃fl : Floats⦄
    → (Bytes → Result (Fields × Bytes))
    → (Bytes → Result (Items × Bytes))
    → Kind
    → ℕ
    → Bytes
    → Result (Value × Bytes)
unfolding starts tail
value_of_kind members elems brace c t =
    (if starts b'}' (ws t) then ok (no_fields, tail (ws t)) else members (ws t)) >>= λ (fs, rest).
    ok (obj fs, rest)
value_of_kind members elems bracket c t =
    (if starts b']' (ws t) then ok (no_items, tail (ws t)) else elems (ws t)) >>= λ (xs, rest).
    ok (arr xs, rest)
value_of_kind members elems quote c t = parse_str (c ∷ t) >>= λ (out, rest). ok (str out, rest)
value_of_kind members elems letter_t c t = literal (codes "true") (bool true) (c ∷ t)
value_of_kind members elems letter_f c t = literal (codes "false") (bool false) (c ∷ t)
value_of_kind members elems letter_n c t = literal (codes "null") null (c ∷ t)
value_of_kind members elems digit c t = number (c ∷ t)
value_of_kind members elems other c t = failed

unfoldable pub first_value :
    ⦃fl : Floats⦄
    → (Bytes → Result (Fields × Bytes))
    → (Bytes → Result (Items × Bytes))
    → Bytes
    → Result (Value × Bytes)
unfolding kind_of value_of_kind
first_value members elems [] = failed
first_value members elems (c ∷ t) = value_of_kind members elems (kind_of c) c t

-- The loops of `array` and `object`: a round of one is `array_loop`, and what stands behind the
-- member that it read is `array_next`. A call of any of these functions costs a unit of fuel.
module _ ⦃fl : Floats⦄ where
  -- The recursion of `value` has no limit of depth; the stack of the program is not modelled.
  unfoldable mutual
    unfolding ws literal next_of expect first_value

    pub value : ℕ → Bytes → Result (Value × Bytes)
    value zero s = out_of_fuel
    value (suc f) s =
        first_value (λ t. object_loop f no_fields t) (λ t. array_loop f no_items t) (ws s)

    pub array_loop : ℕ → Items → Bytes → Result (Items × Bytes)
    array_loop zero xs s = out_of_fuel
    array_loop (suc f) xs s = value f s >>= λ (v, rest). array_next f (push_item xs v) rest

    pub array_next : ℕ → Items → Bytes → Result (Items × Bytes)
    array_next zero xs s = out_of_fuel
    array_next (suc f) xs s = elim (next_of b']' (ws s)) [
      | comma rest ↦ array_loop f xs rest
      | close rest ↦ ok (xs, rest)
      | bad ↦ failed
    ]

    pub object_loop : ℕ → Fields → Bytes → Result (Fields × Bytes)
    object_loop zero fs s = out_of_fuel
    object_loop (suc f) fs s = parse_str (ws s) >>= λ (key, behind_key).
        expect b':' (ws behind_key) >>= λ behind_colon.
        value f behind_colon >>= λ (child, rest). object_next f (set_field key child fs) rest

    pub object_next : ℕ → Fields → Bytes → Result (Fields × Bytes)
    object_next zero fs s = out_of_fuel
    object_next (suc f) fs s = elim (next_of b'}' (ws s)) [
      | comma rest ↦ object_loop f fs rest
      | close rest ↦ ok (fs, rest)
      | bad ↦ failed
    ]

-- The end of `parse`: only white space may be left.
unfoldable pub finish : Value × Bytes → Result Value
unfolding ws
finish (v, rest) = if is_empty (ws rest) then ok v else failed

unfoldable pub parse_result : ⦃fl : Floats⦄ → Bytes → Result Value
parse_result text = value (3 * length text + 3) text >>= finish

abbrev pub accepted : Result Value → Option Value
accepted (ok v) = some v
accepted _ = none

-- `none` is std::nullopt.
unfoldable pub parse : ⦃fl : Floats⦄ → Bytes → Option Value
parse text = accepted (parse_result text)
