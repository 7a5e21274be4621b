-- ===== src/Base/Strings.antt =====
-- A std::string as the list of its bytes, with the comparisons that the program uses.
use Prim.Native.Nat.{ℕ, ◌<◌}
use Prim.Native.Char.{code}
use Prim.Native.String.{String}
use mathlib.Core.Path.{◌≡◌, refl}
use mathlib.Core.Logic.{◌↔◌}
use mathlib.Core.Bool.{Bool, true, false, ◌&&◌, ◌||◌}
use mathlib.Core.List.{List, [], ◌∷◌}
use native.Mathlib.Omega.{arith}
use arcade_launcher_stream_e.Base.Tests.{◌==◌, ltb, if◌then◌else◌}

abbrev pub Bytes : Type 0
Bytes = List ℕ

-- The bytes of a literal; every literal of the development is ASCII.
abbrev pub codes : String → Bytes
codes String.[] = []
codes (String.◌∷◌ c s) = code c ∷ codes s

-- operator== of std::string
unfoldable pub bytes_eq : Bytes → Bytes → Bool
bytes_eq [] [] = true
bytes_eq (x ∷ xs) (y ∷ ys) = x == y && bytes_eq xs ys
bytes_eq _ _ = false

-- operator< of std::string: lexicographic on unsigned bytes
unfoldable pub bytes_lt : Bytes → Bytes → Bool
bytes_lt xs [] = false
bytes_lt [] (y ∷ ys) = true
bytes_lt (x ∷ xs) (y ∷ ys) = if x == y then bytes_lt xs ys else ltb x y

unfoldable pub is_empty : Bytes → Bool
is_empty [] = true
is_empty (_ ∷ _) = false

-- whether the second string starts with the first
unfoldable pub starts_with : Bytes → Bytes → Bool
starts_with [] s = true
starts_with (c ∷ p) [] = false
starts_with (c ∷ p) (d ∷ s) = c == d && starts_with p s

-- `s.find(p) != npos`
unfoldable pub contains : Bytes → Bytes → Bool
contains p [] = is_empty p
contains p (c ∷ s) = starts_with p (c ∷ s) || contains p s

pub bytes_eq_iff : (a b : Bytes) → (bytes_eq a b ≡ true) ↔ (a ≡ b)
unfolding bytes_eq
bytes_eq_iff (x ∷ a) (y ∷ b) = ground (arith, bytes_eq_iff a b)
bytes_eq_iff _ _ = ground arith

pub bytes_eq_refl : (a : Bytes) → bytes_eq a a ≡ true
bytes_eq_refl a = (bytes_eq_iff a a).1 refl

pub bytes_lt_irrefl : (a : Bytes) → bytes_lt a a ≡ false
unfolding bytes_lt
bytes_lt_irrefl [] = refl
bytes_lt_irrefl (x ∷ a) = ground (arith, bytes_lt_irrefl a)

pub bytes_lt_trans :
    (a b c : Bytes) → bytes_lt a b ≡ true → bytes_lt b c ≡ true → bytes_lt a c ≡ true
unfolding bytes_lt
bytes_lt_trans a b [] h k = cc
bytes_lt_trans [] b (z ∷ c) h k = refl
bytes_lt_trans (x ∷ a) [] (z ∷ c) h k = cc
bytes_lt_trans (x ∷ a) (y ∷ b) (z ∷ c) h k = ground (arith, bytes_lt_trans a b c)

pub bytes_lt_total :
    (a b : Bytes) → bytes_eq a b ≡ false → bytes_lt a b ≡ false → bytes_lt b a ≡ true
unfolding bytes_lt bytes_eq
bytes_lt_total [] [] h k = cc
bytes_lt_total [] (y ∷ b) h k = cc
bytes_lt_total (x ∷ a) [] h k = refl
bytes_lt_total (x ∷ a) (y ∷ b) h k = ground (arith, bytes_lt_total a b)

pub bytes_lt_asymm : (a b : Bytes) → bytes_lt a b ≡ true → bytes_lt b a ≡ false
unfolding bytes_lt
bytes_lt_asymm [] b h = ground arith
bytes_lt_asymm (x ∷ a) [] h = cc
bytes_lt_asymm (x ∷ a) (y ∷ b) h = ground (arith, bytes_lt_asymm a b)

-- Every element is a byte.
abbrev pub AreBytes : Bytes → Type 0
AreBytes [] = Unit
AreBytes (c ∷ s) = (c < 256) × AreBytes s
