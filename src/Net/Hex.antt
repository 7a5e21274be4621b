-- ===== src/Net/Hex.antt =====
-- `to_hex` and `from_hex` of src/net/gamestream_xml.cpp.
use arcade_launcher_stream_e.Base.{
  ℕ, ◌+◌, ◌*◌, ◌/◌, ◌%◌, ◌<◌, Bytes, [], ◌∷◌, Option, none, some, ◌≡◌, ◌⊎◌, refl, ◌∙◌, inl, inr,
  arith, length, hex_digit, hex_value, hex_value-hex_digit, AreBytes, hex_value-lt,
}

unfoldable pub to_hex : Bytes → Bytes
to_hex [] = []
to_hex (c ∷ s) = hex_digit (c / 16) ∷ hex_digit (c % 16) ∷ to_hex s

-- One round of the loop of `from_hex`: both digits, in front of the other rounds.
abbrev add_pair : Option ℕ → Option ℕ → Option Bytes → Option Bytes
add_pair (some hi) (some lo) (some out) = some ((hi * 16 + lo) ∷ out)
add_pair _ _ _ = none

-- The loop of `from_hex`: `none` where it returns "" for a byte that is no digit.
unfoldable pub from_pairs : Bytes → Option Bytes
from_pairs [] = some []
from_pairs (a ∷ []) = none
from_pairs (a ∷ b ∷ s) = add_pair (hex_value a) (hex_value b) (from_pairs s)

abbrev pub or_empty : Option Bytes → Bytes
or_empty none = []
or_empty (some s) = s

-- An odd length gives "" before the loop; `from_pairs` has no pair for the last byte.
unfoldable pub from_hex : Bytes → Bytes
from_hex s = or_empty (from_pairs s)

from_pairs_step :
    (a b hi lo : ℕ) (s out : Bytes)
    → hex_value a ≡ some hi
    → hex_value b ≡ some lo
    → from_pairs s ≡ some out
    → from_pairs (a ∷ b ∷ s) ≡ some ((hi * 16 + lo) ∷ out)
unfolding from_pairs
from_pairs_step a b hi lo s out p q r = rw (p, q, r)

from_pairs-to_hex : (s : Bytes) → AreBytes s → from_pairs (to_hex s) ≡ some s
unfolding to_hex
from_pairs-to_hex [] h = unfold from_pairs in refl
from_pairs-to_hex (c ∷ s) h =
    let whole : c / 16 * 16 + c % 16 ≡ c = omega arith in
    from_pairs_step _ _ (c / 16) (c % 16) (to_hex s) s (hex_value-hex_digit (c / 16) (omega arith))
      (hex_value-hex_digit (c % 16) (omega arith)) (from_pairs-to_hex s h.1)
    ∙ rw whole

-- Any bytes come back from their hexadecimal text.
pub from_hex-to_hex : (s : Bytes) → AreBytes s → from_hex (to_hex s) ≡ s
unfolding from_hex
from_hex-to_hex s h = rw (from_pairs-to_hex s h)

pub length-to_hex : (s : Bytes) → length (to_hex s) ≡ 2 * length s
unfolding to_hex
length-to_hex [] = omega arith
length-to_hex (c ∷ s) = omega (arith, length-to_hex s)

-- What the loop gives for a text.
abbrev Halved : Bytes → Option Bytes → Type 0
Halved s none = Unit
Halved s (some out) = AreBytes out × (2 * length out ≡ length s)

add_pair-Halved :
    (a b : ℕ) (s : Bytes) (x y : Option ℕ) (o : Option Bytes)
    → ((d : ℕ) → x ≡ some d → d < 16)
    → ((d : ℕ) → y ≡ some d → d < 16)
    → Halved s o
    → Halved (a ∷ b ∷ s) (add_pair x y o)
add_pair-Halved a b s (some hi) (some lo) (some out) p q h =
    let hi_small = p hi refl in let lo_small = q lo refl in ((omega arith, h.0), omega (arith, h.1))
add_pair-Halved a b s none _ _ p q h = tt
add_pair-Halved a b s (some hi) none _ p q h = tt
add_pair-Halved a b s (some hi) (some lo) none p q h = tt

from_pairs-Halved : (s : Bytes) → Halved s (from_pairs s)
unfolding from_pairs
from_pairs-Halved [] = (tt, omega arith)
from_pairs-Halved (a ∷ []) = tt
from_pairs-Halved (a ∷ b ∷ s) =
    add_pair-Halved a b s (hex_value a) (hex_value b) (from_pairs s) (hex_value-lt a)
      (hex_value-lt b) (from_pairs-Halved s)

-- Whatever text comes in, `from_hex` gives bytes, half as many unless it gives none.
pub from_hex_bytes :
    (s : Bytes) → AreBytes (from_hex s) × ((from_hex s ≡ []) ⊎ (2 * length (from_hex s) ≡ length s))
unfolding from_hex
from_hex_bytes s = of_Halved (from_pairs s) (from_pairs-Halved s)
  where
    of_Halved :
        (o : Option Bytes)
        → Halved s o
        → AreBytes (or_empty o) × ((or_empty o ≡ []) ⊎ (2 * length (or_empty o) ≡ length s))
    of_Halved none h = (tt, inl refl)
    of_Halved (some out) h = (h.0, inr h.1)
