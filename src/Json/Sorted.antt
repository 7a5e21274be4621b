-- ===== src/Json/Sorted.antt =====
-- Values whose maps have their keys in order, and the texts that the parser leaves.

use arcade_launcher_stream_e.Base.{
  ℕ, ◌<◌, ◌≤◌, Bytes, Bool, true, false, ◌&&◌, [], ◌∷◌, ◌≡◌, arith, length, is_empty,
}
use arcade_launcher_stream_e.Json.{
  Value, Items, Fields, null, bool, num, str, arr, obj, no_items, item, no_fields, field, push_item,
  set_field,
}
use arcade_launcher_stream_e.Json.Maps.{keys_sorted}
use arcade_launcher_stream_e.Json.Parser.{ws, starts, tail, after_number, number_token}

-- Every std::map within the value has its keys in order.
unfoldable mutual
  pub maps_sorted : Value → Bool
  maps_sorted (arr xs) = items_sorted xs
  maps_sorted (obj fs) = keys_sorted fs && fields_sorted fs
  maps_sorted null = true
  maps_sorted (bool b) = true
  maps_sorted (num x) = true
  maps_sorted (str s) = true

  pub items_sorted : Items → Bool
  items_sorted no_items = true
  items_sorted (item v xs) = maps_sorted v && items_sorted xs

  pub fields_sorted : Fields → Bool
  fields_sorted no_fields = true
  fields_sorted (field k v fs) = maps_sorted v && fields_sorted fs

pub items_sorted-push_item :
    (xs : Items) (v : Value)
    → items_sorted xs ≡ true
    → maps_sorted v ≡ true
    → items_sorted (push_item xs v) ≡ true
unfolding maps_sorted push_item
items_sorted-push_item no_items v h k = ground arith
items_sorted-push_item (item w xs) v h k = ground (arith, items_sorted-push_item xs v)

pub fields_sorted-set_field :
    (k : Bytes) (v : Value) (fs : Fields)
    → fields_sorted fs ≡ true
    → maps_sorted v ≡ true
    → fields_sorted (set_field k v fs) ≡ true
unfolding maps_sorted set_field
fields_sorted-set_field k v no_fields h p = ground arith
fields_sorted-set_field k v (field j w fs) h p = ground (arith, fields_sorted-set_field k v fs)

pub length-ws : (s : Bytes) → length (ws s) ≤ length s
unfolding ws
length-ws [] = omega arith
length-ws (c ∷ s) = ground (arith, length-ws s)

length-after_number : (s : Bytes) → length (after_number s) ≤ length s
unfolding after_number
length-after_number [] = omega arith
length-after_number (c ∷ s) = ground (arith, length-after_number s)

pub after_number-shorter :
    (s : Bytes) → is_empty (number_token s) ≡ false → length (after_number s) < length s
unfolding after_number number_token is_empty
after_number-shorter [] h = cc
after_number-shorter (c ∷ s) h = ground (arith, length-after_number s)

pub length-tail : (s : Bytes) (b : ℕ) → starts b s ≡ true → length (tail s) < length s
unfolding tail starts
length-tail [] b h = cc
length-tail (c ∷ s) b h = omega arith
