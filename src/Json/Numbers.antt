-- ===== src/Json/Numbers.antt =====
-- The text that `dump_to` prints for a number is one token of the parser's `number`.
use arcade_launcher_stream_e.Json.Dump.{dump_num}
use arcade_launcher_stream_e.Json.Parser.{number_token, after_number, number}
use arcade_launcher_stream_e.Json.Floats.{
  all_number, is_number_text, is_number_byte, Floats, negative_zero, Ieee, prints_whole,
}
use arcade_launcher_stream_e.Base.{
  ℕ, suc, Bytes, Bool, true, not, ◌&&◌, [], ◌∷◌, ◌++◌, ◌==◌, ◌≡◌, ◌≢◌, refl, ◌∙◌, inl, inr, arith,
  length, Bool-cases, is_empty, ℤ, pos, negsuc, to_string_ℤ, all_digits, to_string-ne-nil,
  all_digits-to_string,
}
use arcade_launcher_stream_e.Json.{num}
use arcade_launcher_stream_e.Base.Result.{ok}

all_number-all_digits : (s : Bytes) → all_digits s ≡ true → all_number s ≡ true
unfolding all_number all_digits is_number_byte
all_number-all_digits [] h = refl
all_number-all_digits (c ∷ s) h = ground (arith, all_number-all_digits s)

is_number_text-all_digits : (s : Bytes) → s ≢ [] → all_digits s ≡ true → is_number_text s ≡ true
unfolding all_digits is_number_text
is_number_text-all_digits [] ne h = absurd (ne refl)
is_number_text-all_digits (c ∷ s) ne h = ground (arith, all_number-all_digits (c ∷ s))

all_number_minus : (s : Bytes) → all_number s ≡ true → is_number_text (b'-' ∷ s) ≡ true
unfolding is_number_text all_number is_number_byte
all_number_minus s h = ground arith

pub is_number_text-to_string_ℤ : (z : ℤ) → is_number_text (to_string_ℤ z) ≡ true
unfolding to_string_ℤ
is_number_text-to_string_ℤ (pos n) =
    is_number_text-all_digits _ (to_string-ne-nil n) (all_digits-to_string n)
is_number_text-to_string_ℤ (negsuc n) =
    all_number_minus _ (all_number-all_digits _ (all_digits-to_string (suc n)))

-- What follows a number: the end, or a byte that no number holds.
unfoldable pub stops : Bytes → Bool
stops [] = true
stops (c ∷ s) = not (is_number_byte c)

number_token-append :
    (t rest : Bytes) → all_number t ≡ true → stops rest ≡ true → number_token (t ++ rest) ≡ t
unfolding all_number number_token stops
number_token-append [] [] h k = refl
number_token-append [] (c ∷ rest) h k = ground arith
number_token-append (c ∷ t) rest h k = ground (arith, number_token-append t rest)

after_number-append :
    (t rest : Bytes) → all_number t ≡ true → stops rest ≡ true → after_number (t ++ rest) ≡ rest
unfolding all_number after_number stops
after_number-append [] [] h k = refl
after_number-append [] (c ∷ rest) h k = ground arith
after_number-append (c ∷ t) rest h k = ground (arith, after_number-append t rest)

-- A number that JSON text can carry: finite, and not -0.0, which is printed as 0.
unfoldable pub is_portable_num : ⦃fl : Floats⦄ → ℕ → Bool
is_portable_num ⦃fl⦄ x = fl.is_finite x && not (x == negative_zero)

module _ ⦃fl : Floats⦄ (laws : Ieee fl) where
  pub is_number_text-dump_num :
      (x : ℕ) → is_portable_num x ≡ true → is_number_text (dump_num x) ≡ true
  unfolding dump_num is_portable_num
  is_number_text-dump_num x h = elim (Bool-cases (prints_whole x)) [
    | inl e ↦ rw e (is_number_text-to_string_ℤ (fl.to_ll x))
    | inr e ↦ rw e (laws.print_g_text x (ground arith))
  ]

  strtod_length-dump_num :
      (x : ℕ) → is_portable_num x ≡ true → fl.strtod_length (dump_num x) ≡ length (dump_num x)
  unfolding dump_num is_portable_num
  strtod_length-dump_num x h = elim (Bool-cases (prints_whole x)) [
    | inl e ↦ rw e (laws.strtod_whole_length (fl.to_ll x) (laws.whole_bound x e))
    | inr e ↦ rw e (laws.strtod_print_g_length x (ground arith))
  ]

  strtod_value-dump_num : (x : ℕ) → is_portable_num x ≡ true → fl.strtod_value (dump_num x) ≡ x
  unfolding dump_num is_portable_num
  strtod_value-dump_num x h = elim (Bool-cases (prints_whole x)) [
    | inl e ↦ rw e (
        laws.strtod_whole (fl.to_ll x) (laws.whole_bound x e) ∙ laws.whole_exact x e (ground arith))
    | inr e ↦ rw e (laws.strtod_print_g x (ground arith))
  ]

-- `number` on one token with something else behind it.
number-text :
    ⦃fl : Floats⦄ (t rest : Bytes)
    → is_number_text t ≡ true
    → fl.strtod_length t ≡ length t
    → stops rest ≡ true
    → number (t ++ rest) ≡ ok (num (fl.strtod_value t), rest)
unfolding number is_number_text
number-text [] rest h l k = cc
number-text ⦃fl⦄ (c ∷ t) rest h l k =
    let every : all_number (c ∷ t) ≡ true = ground arith in
    rw (number_token-append (c ∷ t) rest every k, after_number-append (c ∷ t) rest every k)
      (unfold is_empty in ground (arith, l))

module _ ⦃fl : Floats⦄ (laws : Ieee fl) where
  pub number-dump_num :
      (x : ℕ) (rest : Bytes)
      → is_portable_num x ≡ true
      → stops rest ≡ true
      → number (dump_num x ++ rest) ≡ ok (num x, rest)
  number-dump_num x rest h k =
      number-text (dump_num x) rest (is_number_text-dump_num laws x h)
        (strtod_length-dump_num laws x h) k
      ∙ rw (strtod_value-dump_num laws x h)
