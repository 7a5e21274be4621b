-- ===== src/Json/Floats.antt =====
-- What src/ipc/json.cpp and its callers take from the C++ implementation about doubles: the
-- conversions, comparisons, and the texts of printf and strtod. The operations are parameters.
use arcade_launcher_stream_e.Base.{
  ℕ, ◌^◌, ◌<◌, Bytes, Bool, true, false, ◌&&◌, ◌||◌, [], ◌∷◌, ◌==◌, ◌≡◌, ◌≢◌, length, ℤ, pos,
  is_digit, magnitude, to_string_ℤ,
}

-- A double is given by its 64-bit pattern.
pub record Floats : Type 0 where
  pub is_finite : ℕ → Bool
  pub fabs : ℕ → ℕ
  -- the comparisons == and < of doubles
  pub feq : ℕ → ℕ → Bool
  pub flt : ℕ → ℕ → Bool
  -- static_cast<double> of an integer
  pub of_ℤ : ℤ → ℕ
  -- static_cast<long long>, static_cast<int>, and static_cast<uint64_t>
  pub to_ll : ℕ → ℤ
  pub to_int : ℕ → ℤ
  pub to_u64 : ℕ → ℕ
  -- snprintf with "%.17g"
  pub print_g : ℕ → Bytes
  -- strtod: the value, and how many bytes it has read
  pub strtod_value : Bytes → ℕ
  pub strtod_length : Bytes → ℕ

-- the constant 9e15
abbrev pub nine_e15 : ℕ
nine_e15 = 9_000_000_000_000_000

-- The condition under which `dump_to` prints with "%lld".
unfoldable pub prints_whole : ⦃fl : Floats⦄ → ℕ → Bool
prints_whole ⦃fl⦄ x =
    fl.is_finite x && fl.feq x (fl.of_ℤ (fl.to_ll x)) && fl.flt (fl.fabs x) (fl.of_ℤ (pos nine_e15))

-- the pattern of -0.0
abbrev pub negative_zero : ℕ
negative_zero = 2 ^ 63

-- the bytes that make up a printed number
unfoldable pub is_number_byte : ℕ → Bool
is_number_byte c = is_digit c || c == b'.' || c == b'e' || c == b'E' || c == b'+' || c == b'-'

unfoldable pub all_number : Bytes → Bool
all_number [] = true
all_number (c ∷ s) = is_number_byte c && all_number s

-- A text that starts with a digit or a minus sign, and holds only bytes of numbers.
unfoldable pub is_number_text : Bytes → Bool
is_number_text [] = false
is_number_text (c ∷ s) = (c == b'-' || is_digit c) && all_number (c ∷ s)

-- What the C and C++ standards say of these operations on IEEE 754 doubles: integers below 2^53
-- convert exactly, and 17 significant digits determine a double.
pub record Ieee (fl : Floats) : Type 0 where
  pub whole_exact :
      (x : ℕ) → prints_whole ⦃fl = fl⦄ x ≡ true → x ≢ negative_zero → fl.of_ℤ (fl.to_ll x) ≡ x
  pub whole_bound : (x : ℕ) → prints_whole ⦃fl = fl⦄ x ≡ true → magnitude (fl.to_ll x) < nine_e15
  pub strtod_whole : (z : ℤ) → magnitude z < nine_e15 → fl.strtod_value (to_string_ℤ z) ≡ fl.of_ℤ z
  pub strtod_whole_length :
      (z : ℤ) → magnitude z < nine_e15 → fl.strtod_length (to_string_ℤ z) ≡ length (to_string_ℤ z)
  pub print_g_text : (x : ℕ) → fl.is_finite x ≡ true → is_number_text (fl.print_g x) ≡ true
  pub strtod_print_g : (x : ℕ) → fl.is_finite x ≡ true → fl.strtod_value (fl.print_g x) ≡ x
  pub strtod_print_g_length :
      (x : ℕ) → fl.is_finite x ≡ true → fl.strtod_length (fl.print_g x) ≡ length (fl.print_g x)
  pub of_ℤ_finite : (z : ℤ) → magnitude z < nine_e15 → fl.is_finite (fl.of_ℤ z) ≡ true
  pub of_ℤ_zero : (z : ℤ) → magnitude z < nine_e15 → fl.of_ℤ z ≢ negative_zero
  pub to_int-of_ℤ : (z : ℤ) → magnitude z < 2 ^ 31 → fl.to_int (fl.of_ℤ z) ≡ z
  pub to_u64-of_ℤ : (n : ℕ) → n < nine_e15 → fl.to_u64 (fl.of_ℤ (pos n)) ≡ n
