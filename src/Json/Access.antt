-- ===== src/Json/Access.antt =====
-- Reading a field after it was set, on any value.
use arcade_launcher_stream_e.Base.{
  ℕ, Bytes, Bool, false, if◌then◌else◌, some, ◌≡◌, bytes_eq, bytes_eq_refl,
}
use arcade_launcher_stream_e.Json.{
  Value, null, bool, num, str, arr, obj, no_fields, set, find, find_field, get_str, get_num,
  get_bool, str_or, num_or, bool_or,
}
use arcade_launcher_stream_e.Json.Maps.{find_field-set_field}

-- `set` overwrites its own key and leaves every other one alone.
pub find-set :
    (v w : Value) (k j : Bytes) → find (set v k w) j ≡ (if bytes_eq k j then some w else find v j)
unfolding find set find_field
find-set (obj fs) w k j = find_field-set_field k j w fs
find-set null w k j = find_field-set_field k j w no_fields
find-set (bool b) w k j = find_field-set_field k j w no_fields
find-set (num x) w k j = find_field-set_field k j w no_fields
find-set (str s) w k j = find_field-set_field k j w no_fields
find-set (arr xs) w k j = find_field-set_field k j w no_fields

pub find-set_self : (v w : Value) (k : Bytes) → find (set v k w) k ≡ some w
find-set_self v w k = rw (find-set v w k k, bytes_eq_refl k)

pub find-set_ne : (v w : Value) (k j : Bytes) → bytes_eq k j ≡ false → find (set v k w) j ≡ find v j
find-set_ne v w k j h = rw (find-set v w k j, h)

pub get_str-eq : (v : Value) (k d s : Bytes) → find v k ≡ some (str s) → get_str v k d ≡ s
unfolding get_str
get_str-eq v k d s h = rw (h, str_or)

pub get_num-eq : (v : Value) (k : Bytes) (d x : ℕ) → find v k ≡ some (num x) → get_num v k d ≡ x
unfolding get_num
get_num-eq v k d x h = rw (h, num_or)

pub get_bool-eq :
    (v : Value) (k : Bytes) (d b : Bool) → find v k ≡ some (bool b) → get_bool v k d ≡ b
unfolding get_bool
get_bool-eq v k d b h = rw (h, bool_or)
