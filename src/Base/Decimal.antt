-- ===== src/Base/Decimal.antt =====
-- Decimal text: std::to_string and printf's %lld, and the digits that they are made of.
use Prim.Native.Nat.{ℕ, zero, suc, ◌+◌, ◌-◌, ◌*◌, ◌/◌, ◌%◌, ◌<◌}
use mathlib.Core.Path.{◌≡◌, refl, ◌∙◌}
use mathlib.Core.Bool.{Bool, true, ◌&&◌, ◌||◌}
use mathlib.Core.Logic.{◌≢◌, inl, inr}
use mathlib.Core.List.{[], ◌∷◌, ◌++◌, concat-ne-nil}
use native.Mathlib.Omega.{arith}
use arcade_launcher_stream_e.Base.Tests.{ltb, leb, ◌==◌, ltb→lt, if◌then◌else◌, Bool-cases}
use arcade_launcher_stream_e.Base.Strings.{Bytes}
use arcade_launcher_stream_e.Base.Int.{ℤ, pos, negsuc}

unfoldable pub is_digit : ℕ → Bool
is_digit c = leb b'0' c && leb c b'9'

-- The fuel bounds the number of digits.
dec_loop : ℕ → ℕ → Bytes
dec_loop zero n = []
dec_loop (suc f) n =
    let longer = dec_loop f (n / 10) ++ (b'0' + n % 10) ∷ [] in
    if ltb n 10 then (b'0' + n) ∷ [] else longer

-- std::to_string of an unsigned number
unfoldable pub to_string : ℕ → Bytes
unfolding dec_loop
to_string n = dec_loop (suc n) n

-- snprintf with "%lld", and std::to_string of an int
unfoldable pub to_string_ℤ : ℤ → Bytes
to_string_ℤ (pos n) = to_string n
to_string_ℤ (negsuc n) = b'-' ∷ to_string (suc n)

unfoldable pub all_digits : Bytes → Bool
all_digits [] = true
all_digits (c ∷ s) = is_digit c && all_digits s

pub all_digits-append :
    (s t : Bytes) → all_digits s ≡ true → all_digits t ≡ true → all_digits (s ++ t) ≡ true
unfolding all_digits
all_digits-append [] t h k = k
all_digits-append (c ∷ s) t h k = ground (arith, all_digits-append s t)

all_digits_one : (d : ℕ) → d < 10 → all_digits ((b'0' + d) ∷ []) ≡ true
unfolding all_digits is_digit
all_digits_one d h = ground arith

all_digits-dec_loop : (f n : ℕ) → all_digits (dec_loop f n) ≡ true
unfolding dec_loop
all_digits-dec_loop zero n = unfold all_digits in refl
all_digits-dec_loop (suc f) n = elim (Bool-cases (ltb n 10)) [
  | inl e ↦ rw e (all_digits_one n (ltb→lt n 10 e))
  | inr e ↦ rw e (
      all_digits-append _ _ (all_digits-dec_loop f (n / 10))
        (all_digits_one (n % 10) (omega arith)))
]

-- Printed numbers hold digits only, and one at least.
pub all_digits-to_string : (n : ℕ) → all_digits (to_string n) ≡ true
unfolding to_string
all_digits-to_string n = all_digits-dec_loop (suc n) n

pub to_string-ne-nil : (n : ℕ) → to_string n ≢ []
unfolding to_string
to_string-ne-nil n = elim (Bool-cases (ltb n 10)) [
  | inl e ↦ rw e (cc)
  | inr e ↦ rw e (concat-ne-nil _ _)
]

-- The number that the digits at the front of a text spell, behind `acc`.
unfoldable pub digits_value : ℕ → Bytes → ℕ
digits_value acc [] = acc
digits_value acc (c ∷ s) =
    let more = digits_value (acc * 10 + (c - b'0')) s in if is_digit c then more else acc

-- isspace in the C locale
unfoldable pub is_space : ℕ → Bool
is_space c = c == b' ' || leb 9 c && leb c 13

unfoldable pub skip_spaces : Bytes → Bytes
unfolding is_space
skip_spaces [] = []
skip_spaces (c ∷ s) = if is_space c then skip_spaces s else c ∷ s

-- the integer -n
abbrev pub neg : ℕ → ℤ
neg zero = pos 0
neg (suc n) = negsuc n

unfoldable pub signed_value : Bytes → ℤ
unfolding digits_value is_digit
signed_value [] = pos 0
signed_value (c ∷ s) =
    if c == b'-'
    then neg (digits_value 0 s)
    else if c == b'+'
    then pos (digits_value 0 s)
    else pos (digits_value 0 (c ∷ s))

-- std::atoi. The C function leaves a value outside int undefined; here it is the number spelled.
unfoldable pub atoi : Bytes → ℤ
unfolding signed_value skip_spaces
atoi s = signed_value (skip_spaces s)

digits_value-append :
    (acc d : ℕ) (s : Bytes)
    → all_digits s ≡ true
    → d < 10
    → digits_value acc (s ++ (b'0' + d) ∷ []) ≡ digits_value acc s * 10 + d
unfolding digits_value all_digits is_digit
digits_value-append acc d [] h k = ground arith
digits_value-append acc d (c ∷ s) h k =
    ground (arith, digits_value-append (acc * 10 + (c - b'0')) d s)

digits_value-dec_loop : (f n : ℕ) → n < f → digits_value 0 (dec_loop f n) ≡ n
unfolding dec_loop
digits_value-dec_loop zero n h = elim h [ ]
digits_value-dec_loop (suc f) n h = elim (Bool-cases (ltb n 10)) [
  | inl e ↦ rw e (unfold digits_value is_digit in ground arith)
  | inr e ↦
      let smaller : n / 10 < f = ground arith in
      rw
        (
          e,
          digits_value-append 0 (n % 10) (dec_loop f (n / 10)) (all_digits-dec_loop f (n / 10))
              (omega arith),
        )
        (omega (arith, digits_value-dec_loop f (n / 10) smaller))
]

pub digits_value-to_string : (n : ℕ) → digits_value 0 (to_string n) ≡ n
unfolding to_string
digits_value-to_string n = digits_value-dec_loop (suc n) n (omega arith)

signed_value_digits : (s : Bytes) → s ≢ [] → all_digits s ≡ true → atoi s ≡ pos (digits_value 0 s)
unfolding all_digits is_digit skip_spaces signed_value atoi
signed_value_digits [] ne h = absurd (ne refl)
signed_value_digits (c ∷ s) ne h = ground arith

-- Reading a printed integer gives the integer.
pub atoi-to_string_ℤ : (z : ℤ) → atoi (to_string_ℤ z) ≡ z
unfolding to_string_ℤ
atoi-to_string_ℤ (pos n) =
    signed_value_digits _ (to_string-ne-nil n) (all_digits-to_string n)
    ∙ rw (digits_value-to_string n)
atoi-to_string_ℤ (negsuc n) =
    unfold atoi signed_value skip_spaces in rw (digits_value-to_string (suc n))

digits_value_stops :
    (acc : ℕ) (s t : Bytes)
    → all_digits s ≡ true
    → digits_value acc (s ++ (b' ' ∷ t)) ≡ digits_value acc s
unfolding digits_value all_digits is_digit
digits_value_stops acc [] t h = refl
digits_value_stops acc (c ∷ s) t h = ground (arith, digits_value_stops (acc * 10 + (c - b'0')) s t)

atoi_word :
    (s t : Bytes) → s ≢ [] → all_digits s ≡ true → atoi (s ++ (b' ' ∷ t)) ≡ pos (digits_value 0 s)
unfolding all_digits is_digit skip_spaces signed_value atoi
atoi_word [] t ne h = absurd (ne refl)
atoi_word (c ∷ s) t ne h = ground (arith, digits_value_stops 0 (c ∷ s) t)

-- A printed number is read up to the space behind it.
pub atoi-to_string : (n : ℕ) (t : Bytes) → atoi (to_string n ++ (b' ' ∷ t)) ≡ pos n
atoi-to_string n t =
    atoi_word (to_string n) t (to_string-ne-nil n) (all_digits-to_string n)
    ∙ rw (digits_value-to_string n)
