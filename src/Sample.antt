-- ===== src/Sample.antt =====
-- A small instance of the doubles, for the tests: the pattern 2 * n is the integer n, the pattern
-- 2 * n + 1 is -(n + 1), and what lies above 9e15 counts as infinite.
use arcade_launcher_stream_e.Json.Numbers.{is_number_text-to_string_ℤ}
use arcade_launcher_stream_e.Base.{
  ℕ, suc, ◌+◌, ◌*◌, ◌/◌, ◌%◌, ◌^◌, ◌<◌, Bytes, true, [], ◌∷◌, ltb, ◌==◌, if◌then◌else◌, ◌≡◌, ◌≢◌,
  refl, ap, arith, length, ℤ, pos, negsuc, is_digit, magnitude, to_string_ℤ, atoi, all_digits,
  all_digits-to_string, ltb→lt, atoi-to_string_ℤ, and_left, lt→ltb,
}
use arcade_launcher_stream_e.Json.Floats.{Floats, Ieee, nine_e15, prints_whole}

abbrev pub to_ℤ : ℕ → ℤ
to_ℤ x = if x % 2 == 0 then pos (x / 2) else negsuc (x / 2)

abbrev pub from_ℤ : ℤ → ℕ
from_ℤ (pos n) = 2 * n
from_ℤ (negsuc n) = 2 * n + 1

digits_length : Bytes → ℕ
digits_length [] = 0
digits_length (c ∷ s) = if is_digit c then suc (digits_length s) else 0

number_length : Bytes → ℕ
unfolding digits_length
number_length [] = 0
number_length (c ∷ s) = if c == b'-' then suc (digits_length s) else digits_length (c ∷ s)

instance unfoldable pub small : Floats
unfolding number_length
small = record {
  is_finite = λ x. ltb (magnitude (to_ℤ x)) nine_e15;
  fabs = λ x. 2 * magnitude (to_ℤ x);
  feq = λ x y. x == y;
  flt = λ x y. ltb x y;
  of_ℤ = from_ℤ;
  to_ll = to_ℤ;
  to_int = to_ℤ;
  to_u64 = λ x. magnitude (to_ℤ x);
  print_g = λ x. to_string_ℤ (to_ℤ x);
  strtod_value = λ s. from_ℤ (atoi s);
  strtod_length = number_length;
}

from_ℤ-to_ℤ : (x : ℕ) → from_ℤ (to_ℤ x) ≡ x
from_ℤ-to_ℤ x = ground arith

to_ℤ-from_ℤ : (z : ℤ) → to_ℤ (from_ℤ z) ≡ z
to_ℤ-from_ℤ (pos n) = ground arith
to_ℤ-from_ℤ (negsuc n) = ground arith

from_ℤ_small : (z : ℤ) → magnitude z < nine_e15 → from_ℤ z ≢ 2 ^ 63
from_ℤ_small (pos n) h = omega arith
from_ℤ_small (negsuc n) h = omega arith

digits_length-all_digits : (s : Bytes) → all_digits s ≡ true → digits_length s ≡ length s
unfolding digits_length all_digits
digits_length-all_digits [] h = refl
digits_length-all_digits (c ∷ s) h = ground (arith, digits_length-all_digits s)

number_length-all_digits : (s : Bytes) → all_digits s ≡ true → number_length s ≡ length s
unfolding number_length all_digits is_digit
number_length-all_digits [] h = refl
number_length-all_digits (c ∷ s) h = ground (arith, digits_length-all_digits s)

number_length-to_string_ℤ : (z : ℤ) → number_length (to_string_ℤ z) ≡ length (to_string_ℤ z)
unfolding to_string_ℤ
number_length-to_string_ℤ (pos n) = number_length-all_digits _ (all_digits-to_string n)
number_length-to_string_ℤ (negsuc n) =
    unfold number_length in ap suc (digits_length-all_digits _ (all_digits-to_string (suc n)))

whole_bound : (x : ℕ) → prints_whole x ≡ true → magnitude (to_ℤ x) < nine_e15
unfolding prints_whole small
whole_bound x h = ltb→lt _ _ (and_left _ _ (and_left _ _ h))

pub small-Ieee : Ieee small
unfolding small
small-Ieee = record {
  whole_exact = λ x h ne. from_ℤ-to_ℤ x;
  whole_bound = whole_bound;
  strtod_whole = λ z h. ap from_ℤ (atoi-to_string_ℤ z);
  strtod_whole_length = λ z h. number_length-to_string_ℤ z;
  print_g_text = λ x h. is_number_text-to_string_ℤ (to_ℤ x);
  strtod_print_g = λ x h. rw (atoi-to_string_ℤ (to_ℤ x)) (from_ℤ-to_ℤ x);
  strtod_print_g_length = λ x h. number_length-to_string_ℤ (to_ℤ x);
  of_ℤ_finite = λ z h. rw (to_ℤ-from_ℤ z) (lt→ltb (magnitude z) nine_e15 h);
  of_ℤ_zero = from_ℤ_small;
  to_int-of_ℤ = λ z h. to_ℤ-from_ℤ z;
  to_u64-of_ℤ = λ n h. rw (to_ℤ-from_ℤ (pos n));
}
