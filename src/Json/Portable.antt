-- ===== src/Json/Portable.antt =====
-- Builders and accessors keep the values that JSON text carries.
use arcade_launcher_stream_e.Base.{Bytes, true, some, ◌≡◌, arith, bytes_eq_refl}
use arcade_launcher_stream_e.Json.{
  Value, Items, Fields, null, bool, num, str, arr, obj, no_items, item, no_fields, field, set,
  push_item, find, set_field, find_field,
}
use arcade_launcher_stream_e.Json.Maps.{keys_sorted, keys_sorted-set_field}
use arcade_launcher_stream_e.Json.RoundTrip.{is_portable, are_portable, fields_portable}
use arcade_launcher_stream_e.Json.Floats.{Floats}

pub set_field-set_field :
    (k : Bytes) (v w : Value) (fs : Fields) → set_field k v (set_field k w fs) ≡ set_field k v fs
unfolding set_field
set_field-set_field k v w no_fields = ground (arith, bytes_eq_refl k)
set_field-set_field k v w (field j u fs) =
    ground (arith, bytes_eq_refl k, set_field-set_field k v w fs)

pub set-set : (o v w : Value) (k : Bytes) → set (set o k w) k v ≡ set o k v
unfolding set
set-set (obj fs) v w k = rw (set_field-set_field k v w fs)
set-set null v w k = rw (set_field-set_field k v w no_fields)
set-set (bool b) v w k = rw (set_field-set_field k v w no_fields)
set-set (num x) v w k = rw (set_field-set_field k v w no_fields)
set-set (str s) v w k = rw (set_field-set_field k v w no_fields)
set-set (arr xs) v w k = rw (set_field-set_field k v w no_fields)

module _ ⦃fl : Floats⦄ where
  fields_portable-set_field :
      (k : Bytes) (v : Value) (fs : Fields)
      → fields_portable fs ≡ true
      → is_portable v ≡ true
      → fields_portable (set_field k v fs) ≡ true
  unfolding is_portable set_field
  fields_portable-set_field k v no_fields h p = ground arith
  fields_portable-set_field k v (field j w fs) h p =
      ground (arith, fields_portable-set_field k v fs)

  fresh :
      (k : Bytes) (v : Value)
      → is_portable v ≡ true
      → is_portable (obj (set_field k v no_fields)) ≡ true
  unfolding is_portable set_field keys_sorted
  fresh k v p = ground arith

  pub is_portable-set :
      (o v : Value) (k : Bytes)
      → is_portable o ≡ true
      → is_portable v ≡ true
      → is_portable (set o k v) ≡ true
  unfolding is_portable set
  is_portable-set (obj fs) v k h p =
      ground (arith, fields_portable-set_field k v fs, keys_sorted-set_field k v fs)
  is_portable-set null v k h p = fresh k v p
  is_portable-set (bool b) v k h p = fresh k v p
  is_portable-set (num x) v k h p = fresh k v p
  is_portable-set (str s) v k h p = fresh k v p
  is_portable-set (arr xs) v k h p = fresh k v p

  find_field-portable :
      (k : Bytes) (v : Value) (fs : Fields)
      → fields_portable fs ≡ true
      → find_field k fs ≡ some v
      → is_portable v ≡ true
  unfolding is_portable find_field
  find_field-portable k v no_fields h e = cc
  find_field-portable k v (field j w fs) h e = ground (arith, find_field-portable k v fs)

  pub find-portable :
      (o v : Value) (k : Bytes) → is_portable o ≡ true → find o k ≡ some v → is_portable v ≡ true
  unfolding is_portable find
  find-portable (obj fs) v k h e = find_field-portable k v fs (ground arith) e
  find-portable null v k h e = cc
  find-portable (bool b) v k h e = cc
  find-portable (num x) v k h e = cc
  find-portable (str s) v k h e = cc
  find-portable (arr xs) v k h e = cc

  pub are_portable-push_item :
      (xs : Items) (v : Value)
      → are_portable xs ≡ true
      → is_portable v ≡ true
      → are_portable (push_item xs v) ≡ true
  unfolding is_portable push_item
  are_portable-push_item no_items v h p = ground arith
  are_portable-push_item (item w xs) v h p = ground (arith, are_portable-push_item xs v)
