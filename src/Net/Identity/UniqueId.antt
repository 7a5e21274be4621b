-- ===== src/Net/Identity/UniqueId.antt =====
-- `generate_unique_id` of src/net/identity.cpp. The number is `none` where `RAND_bytes` fails.
use native.Mathlib.Nat.{pow-suc, div-div-eq-div-mul}
use arcade_launcher_stream_e.Base.{
  ℕ, zero, suc, ◌+◌, ◌*◌, ◌/◌, ◌%◌, ◌^◌, ◌<◌, Bytes, [], ◌∷◌, Option, none, some, ◌≡◌, refl, sym,
  ap, ◌∙◌, arith, length, hex_digit, hex_value, hex_value-hex_digit,
}

-- The loop over the shifts 4 * (k - 1), ..., 0
unfoldable pub nibbles : ℕ → ℕ → Bytes
nibbles zero uid = []
nibbles (suc k) uid = hex_digit (uid / 16 ^ k % 16) ∷ nibbles k uid

unfoldable pub generate_unique_id : Option ℕ → Bytes
unfolding nibbles
generate_unique_id none = []
generate_unique_id (some uid) = nibbles 16 uid

-- The number that a text in hexadecimal digits stands for
abbrev pub on_digit : Option ℕ → (ℕ → Option ℕ) → Option ℕ
on_digit none next = none
on_digit (some d) next = next d

unfoldable pub hex_number : ℕ → Bytes → Option ℕ
hex_number n [] = some n
hex_number n (c ∷ s) = on_digit (hex_value c) (λ d. hex_number (n * 16 + d) s)

hex_number_step :
    (n d : ℕ) (s : Bytes) → d < 16 → hex_number n (hex_digit d ∷ s) ≡ hex_number (n * 16 + d) s
unfolding hex_number
hex_number_step n d s h = rw (hex_value-hex_digit d h) refl

length-nibbles : (k uid : ℕ) → length (nibbles k uid) ≡ k
unfolding nibbles
length-nibbles zero uid = refl
length-nibbles (suc k) uid = ap (λ n. suc n) (length-nibbles k uid)

-- uid / 16^k, with the digits from there on read, is uid
hex_number-nibbles : (k uid : ℕ) → hex_number (uid / 16 ^ k) (nibbles k uid) ≡ some uid
unfolding nibbles
hex_number-nibbles zero uid = unfold hex_number in ap (λ n. some n) (omega arith)
hex_number-nibbles (suc k) uid =
    hex_number_step (uid / 16 ^ suc k) (uid / 16 ^ k % 16) (nibbles k uid) (omega arith)
    ∙ (ap (λ n. hex_number n (nibbles k uid)) whole ∙ hex_number-nibbles k uid)
  where
    shifted : uid / 16 ^ suc k ≡ uid / 16 ^ k / 16
    shifted = ap (λ n. uid / n) (pow-suc 16 k) ∙ sym (div-div-eq-div-mul uid (16 ^ k) 16)

    whole : uid / 16 ^ suc k * 16 + uid / 16 ^ k % 16 ≡ uid / 16 ^ k
    whole = omega (arith, shifted)

-- The id of a 64-bit number has 16 hexadecimal digits, and they read back as the number: no two
-- numbers give one id.
pub hex_number-generate_unique_id :
    (uid : ℕ)
    → uid < 2 ^ 64
    → (length (generate_unique_id (some uid)) ≡ 16)
      × (hex_number 0 (generate_unique_id (some uid)) ≡ some uid)
unfolding generate_unique_id
hex_number-generate_unique_id uid h =
    let top : 0 ≡ uid / 16 ^ 16 = omega arith in
    (length-nibbles 16 uid, ap (λ n. hex_number n (nibbles 16 uid)) top ∙ hex_number-nibbles 16 uid)
