-- ===== src/Json/Sound.antt =====
-- The fuel of `parse` always suffices, and every map of a parsed value has its keys in order.

use arcade_launcher_stream_e.Json.Sorted.{maps_sorted, items_sorted, fields_sorted}
use arcade_launcher_stream_e.Json.Sorted.{
  items_sorted-push_item, fields_sorted-set_field, length-ws, length-tail,
}
use arcade_launcher_stream_e.Json.Steps.{
  Good, GoodItems, GoodFields, number-Good, literal-Good, Behind, next_of-Shorter, expect-Shorter,
  Goods,
}
use arcade_launcher_stream_e.Json.Floats.{Floats}
use arcade_launcher_stream_e.Base.{
  ℕ, zero, suc, ◌+◌, ◌*◌, ◌<◌, Bytes, codes, true, false, [], ◌∷◌, some, ◌≡◌, ◌≢◌, refl, arith,
  length, is_empty,
}
use arcade_launcher_stream_e.Base.Result.{
  Result, ok, failed, out_of_fuel, Ensures, holds, rejected, Ensures-if, Ensures-bind, Ensures-mono,
  Ensures-out_of_fuel, Ensures-ok,
}
use arcade_launcher_stream_e.Json.{
  Value, Items, Fields, null, bool, no_items, no_fields, push_item, set_field,
}
use arcade_launcher_stream_e.Json.Maps.{keys_sorted, keys_sorted-set_field}
use arcade_launcher_stream_e.Json.Parser.{
  Next, comma, close, bad, Kind, brace, bracket, quote, letter_t, letter_f, letter_n, digit, other,
  ws, value, array_loop, array_next, object_loop, object_next, starts, parse, parse_result, finish,
  next_of, kind_of, accepted, value_of_kind, first_value,
}
use arcade_launcher_stream_e.Json.Text.Consumes.{parse_str-Ensures}

accepted_ok : (r : Result Value) (v : Value) → accepted r ≡ some v → r ≡ ok v
accepted_ok (ok w) v h = cc
accepted_ok failed v h = cc
accepted_ok out_of_fuel v h = cc

module _ ⦃fl : Floats⦄ {f : ℕ} (g : Goods f) where
  items_round :
      (xs : Items) (s : Bytes)
      → items_sorted xs ≡ true
      → 3 * length s + 3 < suc f
      → Ensures (GoodItems s) (array_loop (suc f) xs s)
  unfolding value
  items_round xs s p h = Ensures-bind (g.of_value s (omega arith)) λ (v, rest) (q, r).
      Ensures-mono (λ t m. (omega arith, m.1))
        (g.of_next_item (push_item xs v) rest (items_sorted-push_item xs v p r) (omega arith))

  fields_round :
      (fs : Fields) (s : Bytes)
      → keys_sorted fs ≡ true
      → fields_sorted fs ≡ true
      → 3 * length s + 3 < suc f
      → Ensures (GoodFields s) (object_loop (suc f) fs s)
  unfolding value
  fields_round fs s p p' h = Ensures-bind (parse_str-Ensures (ws s)) λ (key, s₁) q₁.
      Ensures-bind (expect-Shorter b':' (ws s₁)) λ s₂ q₂.
        Ensures-bind (g.of_value s₂ (omega (arith, length-ws s, length-ws s₁)))
          λ (child, rest) (q₃, r).
            Ensures-mono (λ t m. (omega (arith, length-ws s, length-ws s₁), m.1, m.2))
              (g.of_next_field (set_field key child fs) rest (keys_sorted-set_field key child fs p)
                (fields_sorted-set_field key child fs p' r)
                (omega (arith, length-ws s, length-ws s₁)))

  next_item_round :
      (xs : Items) (s : Bytes)
      → items_sorted xs ≡ true
      → 3 * length s + 2 < suc f
      → Ensures (GoodItems s) (array_next (suc f) xs s)
  unfolding value
  next_item_round xs s p h = at_next (next_of b']' (ws s)) (next_of-Shorter b']' (ws s))
    where
      at_next :
          (n : Next)
          → Behind (ws s) n
          → Ensures {A = Items × Bytes} (GoodItems s) (elim n [
            | comma rest ↦ array_loop f xs rest
            | close rest ↦ ok (xs, rest)
            | bad ↦ failed
          ])
      at_next (comma rest) q =
          Ensures-mono (λ t m. (omega (arith, length-ws s), m.1))
            (g.of_items xs rest p (omega (arith, length-ws s)))
      at_next (close rest) q = holds (omega (arith, length-ws s), p)
      at_next bad q = rejected

  next_field_round :
      (fs : Fields) (s : Bytes)
      → keys_sorted fs ≡ true
      → fields_sorted fs ≡ true
      → 3 * length s + 2 < suc f
      → Ensures (GoodFields s) (object_next (suc f) fs s)
  unfolding value
  next_field_round fs s p p' h = at_next (next_of b'}' (ws s)) (next_of-Shorter b'}' (ws s))
    where
      at_next :
          (n : Next)
          → Behind (ws s) n
          → Ensures {A = Fields × Bytes} (GoodFields s) (elim n [
            | comma rest ↦ object_loop f fs rest
            | close rest ↦ ok (fs, rest)
            | bad ↦ failed
          ])
      at_next (comma rest) q =
          Ensures-mono (λ t m. (omega (arith, length-ws s), m.1, m.2))
            (g.of_fields fs rest p p' (omega (arith, length-ws s)))
      at_next (close rest) q = holds (omega (arith, length-ws s), p, p')
      at_next bad q = rejected

  array_Good :
      (members : Bytes → Result (Fields × Bytes)) (c : ℕ) (t : Bytes)
      → 3 * length (c ∷ t) + 2 < suc f
      → Ensures (Good (c ∷ t)) (value_of_kind members (λ u. array_loop f no_items u) bracket c t)
  unfolding maps_sorted value_of_kind
  array_Good members c t h =
      Ensures-bind {P = GoodItems (c ∷ t)}
        (Ensures-if (starts b']' (ws t))
          (λ e. holds (omega (arith, length-ws t, length-tail (ws t) b']' e), refl))
          (λ e.
            Ensures-mono (λ r m. (omega (arith, length-ws t), m.1))
              (g.of_items no_items (ws t) refl (omega (arith, length-ws t)))))
        λ (xs, rest) m. holds m

  object_Good :
      (elems : Bytes → Result (Items × Bytes)) (c : ℕ) (t : Bytes)
      → 3 * length (c ∷ t) + 2 < suc f
      → Ensures (Good (c ∷ t)) (value_of_kind (λ u. object_loop f no_fields u) elems brace c t)
  unfolding maps_sorted keys_sorted value_of_kind
  object_Good elems c t h =
      Ensures-bind {P = GoodFields (c ∷ t)}
        (Ensures-if (starts b'}' (ws t))
          (λ e. holds (omega (arith, length-ws t, length-tail (ws t) b'}' e), refl, refl))
          (λ e.
            Ensures-mono (λ r m. (omega (arith, length-ws t), m.1, m.2))
              (g.of_fields no_fields (ws t) refl refl (omega (arith, length-ws t)))))
        λ (fs, rest) m. holds (m.0, ground (arith, m.1, m.2))

  kind_round :
      (k : Kind) (c : ℕ) (t : Bytes)
      → 3 * length (c ∷ t) + 2 < suc f
      → Ensures
          (Good (c ∷ t))
          (value_of_kind (λ u. object_loop f no_fields u) (λ u. array_loop f no_items u) k c t)
  unfolding maps_sorted value_of_kind
  kind_round brace c t h = object_Good (λ u. array_loop f no_items u) c t h
  kind_round bracket c t h = array_Good (λ u. object_loop f no_fields u) c t h
  kind_round quote c t h = Ensures-bind (parse_str-Ensures (c ∷ t)) λ (out, rest) m. holds (m, refl)
  kind_round letter_t c t h = literal-Good (codes "true") (bool true) (c ∷ t) (omega arith) refl
  kind_round letter_f c t h = literal-Good (codes "false") (bool false) (c ∷ t) (omega arith) refl
  kind_round letter_n c t h = literal-Good (codes "null") null (c ∷ t) (omega arith) refl
  kind_round digit c t h = number-Good (c ∷ t)
  kind_round other c t h = rejected

  first_value_round :
      (u : Bytes)
      → 3 * length u + 2 < suc f
      → Ensures
          (Good u)
          (first_value (λ t. object_loop f no_fields t) (λ t. array_loop f no_items t) u)
  unfolding first_value
  first_value_round [] h = rejected
  first_value_round (c ∷ t) h = kind_round (kind_of c) c t h

  value_round : (s : Bytes) → 3 * length s + 2 < suc f → Ensures (Good s) (value (suc f) s)
  unfolding value
  value_round s h =
      Ensures-mono (λ r m. (omega (arith, length-ws s), m.1))
        (first_value_round (ws s) (omega (arith, length-ws s)))

every-Goods : ⦃fl : Floats⦄ (f : ℕ) → Goods f
every-Goods zero = record {
  of_value = λ s h. absurd (omega arith);
  of_items = λ xs s p h. absurd (omega arith);
  of_next_item = λ xs s p h. absurd (omega arith);
  of_fields = λ fs s p q h. absurd (omega arith);
  of_next_field = λ fs s p q h. absurd (omega arith);
}
every-Goods (suc f) = record {
  of_value = value_round (every-Goods f);
  of_items = items_round (every-Goods f);
  of_next_item = next_item_round (every-Goods f);
  of_fields = fields_round (every-Goods f);
  of_next_field = next_field_round (every-Goods f);
}

parse_result-Ensures :
    ⦃fl : Floats⦄ (s : Bytes) → Ensures (λ v. maps_sorted v ≡ true) (parse_result s)
unfolding parse_result finish
parse_result-Ensures s =
    Ensures-bind ((every-Goods (3 * length s + 3)).of_value s (omega arith))
      λ (v, rest) m. Ensures-if (is_empty (ws rest)) (λ e. holds m.1) (λ e. rejected)

-- `parse` never runs out of its fuel: it accepts or refuses every text.
pub parse_result-ne-out_of_fuel : ⦃fl : Floats⦄ (s : Bytes) → parse_result s ≢ out_of_fuel
parse_result-ne-out_of_fuel s = Ensures-out_of_fuel (parse_result-Ensures s)

-- Every map of a parsed value has strictly increasing keys, whatever order and repetitions the
-- text has.
pub parse-maps_sorted :
    ⦃fl : Floats⦄ (s : Bytes) (v : Value) → parse s ≡ some v → maps_sorted v ≡ true
unfolding parse
parse-maps_sorted s v h = Ensures-ok (parse_result-Ensures s) (accepted_ok (parse_result s) v h)
