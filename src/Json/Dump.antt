-- ===== src/Json/Dump.antt =====
-- `escape_to` and `dump_to` of src/ipc/json.cpp. The C++ functions append to `out`; these give the
-- text that is appended.
use arcade_launcher_stream_e.Base.{
  ℕ, ◌/◌, ◌%◌, Bytes, codes, Bool, true, false, [], ◌∷◌, ◌++◌, ltb, ◌==◌, if◌then◌else◌,
  to_string_ℤ, hex_digit,
}
use arcade_launcher_stream_e.Json.{
  Value, Items, Fields, null, bool, num, str, arr, obj, no_items, item, no_fields, field,
}
use arcade_launcher_stream_e.Json.Floats.{Floats, prints_whole}

unfoldable pub escape_byte : ℕ → Bytes
escape_byte c =
    if c == b'"'
    then b'\\' ∷ b'"' ∷ []
    else if c == b'\\'
    then b'\\' ∷ b'\\' ∷ []
    else if c == 8
    then b'\\' ∷ b'b' ∷ []
    else if c == 12
    then b'\\' ∷ b'f' ∷ []
    else if c == b'\n'
    then b'\\' ∷ b'n' ∷ []
    else if c == b'\r'
    then b'\\' ∷ b'r' ∷ []
    else if c == b'\t'
    then b'\\' ∷ b't' ∷ []
    else if ltb c 32
    then b'\\' ∷ b'u' ∷ b'0' ∷ b'0' ∷ hex_digit (c / 16) ∷ hex_digit (c % 16) ∷ []
    else c ∷ []

-- the loop of `escape_to`
unfoldable pub escape_bytes : Bytes → Bytes
escape_bytes [] = []
escape_bytes (c ∷ s) = escape_byte c ++ escape_bytes s

unfoldable pub escape : Bytes → Bytes
unfolding escape_bytes
escape s = b'"' ∷ (escape_bytes s ++ b'"' ∷ [])

abbrev pub comma_unless : Bool → Bytes
comma_unless first = if first then [] else b',' ∷ []

unfoldable pub dump_num : ⦃fl : Floats⦄ → ℕ → Bytes
unfolding prints_whole
dump_num ⦃fl⦄ x = if prints_whole x then to_string_ℤ (fl.to_ll x) else fl.print_g x

module _ ⦃fl : Floats⦄ where
  unfoldable mutual
    pub dump : Value → Bytes
    dump null = codes "null"
    dump (bool b) = if b then codes "true" else codes "false"
    dump (num x) = dump_num x
    dump (str s) = escape s
    dump (arr xs) = b'[' ∷ (dump_items true xs ++ b']' ∷ [])
    dump (obj fs) = b'{' ∷ (dump_fields true fs ++ b'}' ∷ [])

    pub dump_items : Bool → Items → Bytes
    dump_items first no_items = []
    dump_items first (item v xs) = comma_unless first ++ (dump v ++ dump_items false xs)

    pub dump_fields : Bool → Fields → Bytes
    dump_fields first no_fields = []
    dump_fields first (field k v fs) =
        comma_unless first ++ (escape k ++ (b':' ∷ (dump v ++ dump_fields false fs)))
