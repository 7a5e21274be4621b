-- ===== src/Json/Maps.antt =====
-- The order that a std::map keeps: keys strictly increase, so each stands once. Insertion keeps it,
-- and rebuilding a map entry by entry gives the same map.
use arcade_launcher_stream_e.Base.{
  Bytes, Bool, true, ◌&&◌, if◌then◌else◌, some, ◌≡◌, refl, sym, ◌∙◌, arith, bytes_eq, bytes_eq_iff,
  bytes_lt, bytes_lt_total, bytes_lt_trans, bytes_lt_irrefl, bytes_lt_asymm,
}
use arcade_launcher_stream_e.Json.{Value, Fields, no_fields, field, set_field, find_field}

-- Every key of the map is above `k`, judged by the first.
unfoldable pub head_above : Bytes → Fields → Bool
head_above k no_fields = true
head_above k (field j v fs) = bytes_lt k j

unfoldable pub keys_sorted : Fields → Bool
unfolding head_above
keys_sorted no_fields = true
keys_sorted (field k v fs) = head_above k fs && keys_sorted fs

-- `find` after `m[k] = v`, for every map.
pub find_field-set_field :
    (k j : Bytes) (v : Value) (fs : Fields)
    → find_field j (set_field k v fs) ≡ (if bytes_eq k j then some v else find_field j fs)
unfolding find_field set_field
find_field-set_field k j v no_fields = ground (arith, bytes_eq_iff k j, bytes_eq_iff j k)
find_field-set_field k j v (field i w fs) = ground (
  arith,
  bytes_eq_iff k j,
  bytes_eq_iff i k,
  bytes_eq_iff i j,
  bytes_eq_iff j k,
  bytes_eq_iff j i,
  bytes_eq_iff k i,
  find_field-set_field k j v fs,
)

head_above-set_field :
    (i k : Bytes) (v : Value) (fs : Fields)
    → bytes_lt i k ≡ true
    → head_above i fs ≡ true
    → head_above i (set_field k v fs) ≡ true
unfolding head_above set_field
head_above-set_field i k v no_fields h t = h
head_above-set_field i k v (field j w fs) h t = ground arith

-- Assigning keeps the keys sorted.
pub keys_sorted-set_field :
    (k : Bytes) (v : Value) (fs : Fields)
    → keys_sorted fs ≡ true
    → keys_sorted (set_field k v fs) ≡ true
unfolding keys_sorted set_field
keys_sorted-set_field k v no_fields h = refl
keys_sorted-set_field k v (field j w fs) h =
    ground (arith, keys_sorted-set_field k v fs, head_above-set_field j k v fs, bytes_lt_total k j)

-- The entries of `fs`, assigned in order.
abbrev pub insert_fields : Fields → Fields → Fields
insert_fields acc no_fields = acc
insert_fields acc (field k v fs) = insert_fields (set_field k v acc) fs

abbrev append_fields : Fields → Fields → Fields
append_fields no_fields gs = gs
append_fields (field k v fs) gs = field k v (append_fields fs gs)

below_last :
    (j k : Bytes) (v : Value) (acc fs : Fields)
    → head_above j (append_fields acc (field k v fs)) ≡ true
    → keys_sorted (append_fields acc (field k v fs)) ≡ true
    → bytes_lt j k ≡ true
unfolding keys_sorted
below_last j k v no_fields fs h s = h
below_last j k v (field i w acc) fs h s =
    bytes_lt_trans j i k h (below_last i k v acc fs (ground arith) (ground arith))

set_field_last :
    (k : Bytes) (v : Value) (acc fs : Fields)
    → keys_sorted (append_fields acc (field k v fs)) ≡ true
    → set_field k v acc ≡ append_fields acc (field k v no_fields)
unfolding set_field keys_sorted
set_field_last k v no_fields fs h = refl
set_field_last k v (field j w acc) fs h =
    let low : bytes_lt j k ≡ true = below_last j k v acc fs (ground arith) (ground arith) in
    let ih = set_field_last k v acc fs (ground arith) in
    ground (arith, ih, bytes_eq_iff k j, bytes_lt_irrefl j, bytes_lt_asymm j k)

append_fields_assoc :
    (k : Bytes) (v : Value) (acc fs : Fields)
    → append_fields (append_fields acc (field k v no_fields)) fs ≡ append_fields acc (field k v fs)
append_fields_assoc k v no_fields fs = refl
append_fields_assoc k v (field j w acc) fs = rw (append_fields_assoc k v acc fs)

append_fields_nil : (fs : Fields) → append_fields fs no_fields ≡ fs
append_fields_nil no_fields = refl
append_fields_nil (field k v fs) = rw (append_fields_nil fs)

insert_fields-append :
    (acc fs : Fields)
    → keys_sorted (append_fields acc fs) ≡ true
    → insert_fields acc fs ≡ append_fields acc fs
insert_fields-append acc no_fields h = sym (append_fields_nil acc)
insert_fields-append acc (field k v fs) h =
    let last = set_field_last k v acc fs h in
    rw last (
      insert_fields-append (append_fields acc (field k v no_fields)) fs
        (rw (append_fields_assoc k v acc fs) h)
      ∙ append_fields_assoc k v acc fs)

-- A sorted map is rebuilt by assigning its entries in order.
pub insert_fields-sorted : (fs : Fields) → keys_sorted fs ≡ true → insert_fields no_fields fs ≡ fs
insert_fields-sorted fs h = insert_fields-append no_fields fs h
