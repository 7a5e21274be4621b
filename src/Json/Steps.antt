-- ===== src/Json/Steps.antt =====
-- What each step of the parser keeps within its fuel, and leaves in order.
use arcade_launcher_stream_e.Json.Sorted.{maps_sorted, items_sorted, fields_sorted}
use arcade_launcher_stream_e.Json.Sorted.{after_number-shorter}
use arcade_launcher_stream_e.Json.Floats.{Floats}
use arcade_launcher_stream_e.Base.{
  ℕ, ◌+◌, ◌*◌, ◌<◌, Bytes, true, [], ◌∷◌, ◌==◌, Option, none, some, ◌≡◌, refl, inl, inr, arith,
  length, Option-cases, is_empty,
}
use arcade_launcher_stream_e.Base.Result.{Ensures, holds, rejected, Ensures-if}
use arcade_launcher_stream_e.Json.{Value, Items, Fields}
use arcade_launcher_stream_e.Json.Maps.{keys_sorted}
use arcade_launcher_stream_e.Json.Parser.{
  Next, comma, close, bad, value, array_loop, array_next, object_loop, object_next, number, literal,
  strip_prefix, next_of, expect, number_token,
}

-- The outcome of reading a value, an array's items or an object's fields from `s`.
abbrev pub Good : Bytes → Value × Bytes → Type 0
Good s r = (length r.1 < length s) × (maps_sorted r.0 ≡ true)

abbrev pub GoodItems : Bytes → Items × Bytes → Type 0
GoodItems s r = (length r.1 < length s) × (items_sorted r.0 ≡ true)

abbrev pub GoodFields : Bytes → Fields × Bytes → Type 0
GoodFields s r = (length r.1 < length s) × (keys_sorted r.0 ≡ true) × (fields_sorted r.0 ≡ true)

pub number-Good : ⦃fl : Floats⦄ (s : Bytes) → Ensures (Good s) (number s)
unfolding number maps_sorted
number-Good ⦃fl⦄ s =
    Ensures-if (is_empty (number_token s)) (λ e. rejected)
      λ e.
        Ensures-if (fl.strtod_length (number_token s) == length (number_token s))
          (λ m. holds (after_number-shorter s e, refl)) (λ m. rejected)

abbrev Stripped : Bytes → Bytes → Option Bytes → Type 0
Stripped lit s none = Unit
Stripped lit s (some rest) = length rest + length lit ≡ length s

strip_prefix-Stripped : (lit s : Bytes) → Stripped lit s (strip_prefix lit s)
unfolding strip_prefix
strip_prefix-Stripped [] s = omega arith
strip_prefix-Stripped (p ∷ ps) [] = tt
strip_prefix-Stripped (p ∷ ps) (c ∷ s) = ground (arith, strip_prefix-Stripped ps s)

pub literal-Good :
    (lit : Bytes) (v : Value) (s : Bytes)
    → 0 < length lit
    → maps_sorted v ≡ true
    → Ensures (Good s) (literal lit v s)
unfolding literal
literal-Good lit v s h k = elim (Option-cases (strip_prefix lit s)) [
  | inl e ↦ rw (e, literal) rejected
  | inr (rest, e) ↦
      rw (e, literal) (holds (omega (arith, rw e at (strip_prefix-Stripped lit s)), k))
]

abbrev pub Behind : Bytes → Next → Type 0
Behind s (comma rest) = length rest < length s
Behind s (close rest) = length rest < length s
Behind s bad = Unit

pub next_of-Shorter : (end : ℕ) (s : Bytes) → Behind s (next_of end s)
unfolding next_of
next_of-Shorter end [] = tt
next_of-Shorter end (c ∷ s) = ground arith

pub expect-Shorter : (b : ℕ) (s : Bytes) → Ensures (λ rest. length rest < length s) (expect b s)
unfolding expect
expect-Shorter b [] = rejected
expect-Shorter b (c ∷ s) = Ensures-if (c == b) (λ e. holds (omega arith)) (λ e. rejected)

-- With fuel `f`, each of the five functions keeps within its fuel and reads sorted values. A byte
-- that opens or separates members pays for the calls up to the next.
pub record Goods ⦃fl : Floats⦄ (f : ℕ) : Type 0 where
  pub of_value : (s : Bytes) → 3 * length s + 2 < f → Ensures (Good s) (value f s)
  pub of_items :
      (xs : Items) (s : Bytes)
      → items_sorted xs ≡ true
      → 3 * length s + 3 < f
      → Ensures (GoodItems s) (array_loop f xs s)
  pub of_next_item :
      (xs : Items) (s : Bytes)
      → items_sorted xs ≡ true
      → 3 * length s + 2 < f
      → Ensures (GoodItems s) (array_next f xs s)
  pub of_fields :
      (fs : Fields) (s : Bytes)
      → keys_sorted fs ≡ true
      → fields_sorted fs ≡ true
      → 3 * length s + 3 < f
      → Ensures (GoodFields s) (object_loop f fs s)
  pub of_next_field :
      (fs : Fields) (s : Bytes)
      → keys_sorted fs ≡ true
      → fields_sorted fs ≡ true
      → 3 * length s + 2 < f
      → Ensures (GoodFields s) (object_next f fs s)
