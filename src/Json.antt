-- ===== src/Json.antt =====
-- src/ipc/json.h: the tagged value, its builders and its accessors. The fields of the C++ struct
-- that `type` does not select are never read, so a value is a union here. A `double` is its 64-bit
-- pattern, and a `std::map` is its list of entries in iteration order.
use arcade_launcher_stream_e.Base.{
  ℕ, Bytes, bytes_eq, bytes_lt, Bool, true, false, Option, none, some, if◌then◌else◌, List, [], ◌∷◌,
}
pub mod Floats
pub mod Dump
pub mod Text
pub mod Parser
pub mod Numbers
pub mod Maps
pub mod RoundTrip
pub mod Access
pub mod Portable
pub mod Sorted
pub mod Steps
pub mod Sound

-- the 64-bit pattern of a C++ double
abbrev pub Double : Type 0
Double = ℕ

mutual
  pub data Value : Type 0 where
    null : Value
    bool : Bool → Value
    num : Double → Value
    str : Bytes → Value
    arr : Items → Value
    obj : Fields → Value

  pub data Items : Type 0 where
    no_items : Items
    item : Value → Items → Items

  pub data Fields : Type 0 where
    no_fields : Fields
    field : Bytes → Value → Fields → Fields

unfoldable pub is_object : Value → Bool
is_object (obj _) = true
is_object _ = false

unfoldable pub is_array : Value → Bool
is_array (arr _) = true
is_array _ = false

unfoldable pub is_null : Value → Bool
is_null null = true
is_null _ = false

-- `m[k] = v` on the map
unfoldable pub set_field : Bytes → Value → Fields → Fields
set_field k v no_fields = field k v no_fields
set_field k v (field j w fs) =
    if bytes_eq k j
    then field j v fs
    else if bytes_lt k j
    then field k v (field j w fs)
    else field j w (set_field k v fs)

-- `m.find(k)` on the map
unfoldable pub find_field : Bytes → Fields → Option Value
find_field k no_fields = none
find_field k (field j v fs) = if bytes_eq k j then some v else find_field k fs

unfoldable pub push_item : Items → Value → Items
push_item no_items v = item v no_items
push_item (item w xs) v = item w (push_item xs v)

unfoldable pub set : Value → Bytes → Value → Value
set (obj fs) k v = obj (set_field k v fs)
set _ k v = obj (set_field k v no_fields)

unfoldable pub push : Value → Value → Value
push (arr xs) v = arr (push_item xs v)
push _ v = arr (item v no_items)

unfoldable pub find : Value → Bytes → Option Value
find (obj fs) k = find_field k fs
find _ k = none

unfoldable pub str_or : Bytes → Option Value → Bytes
str_or d (some (str s)) = s
str_or d _ = d

unfoldable pub num_or : Double → Option Value → Double
num_or d (some (num x)) = x
num_or d _ = d

unfoldable pub bool_or : Bool → Option Value → Bool
bool_or d (some (bool b)) = b
bool_or d _ = d

unfoldable pub get_str : Value → Bytes → Bytes → Bytes
unfolding str_or
get_str v k d = str_or d (find v k)

unfoldable pub get_num : Value → Bytes → Double → Double
unfolding num_or
get_num v k d = num_or d (find v k)

unfoldable pub get_bool : Value → Bytes → Bool → Bool
unfolding bool_or
get_bool v k d = bool_or d (find v k)

-- The elements of an array, for the loops over `arr`.
unfoldable pub elements : Items → List Value
elements no_items = []
elements (item v xs) = v ∷ elements xs
