-- ===== src/Host/HostApps.antt =====
-- src/host/host_apps.cpp and .h: the app list that Sunshine streams, as text, and the comparison of
-- two lists. Files are read and written outside of this model.
use arcade_launcher_stream_e.Json.Parser.{parse}
use arcade_launcher_stream_e.Json.Dump.{dump}
use arcade_launcher_stream_e.Json.Floats.{Floats}
use arcade_launcher_stream_e.Json.{
  Value, set, Items, get_str, arr, find, str, obj, no_items, get_bool, item, no_fields, get_num,
  is_object, bool, num,
}
use arcade_launcher_stream_e.Base.{
  contains, ℕ, suc, Bytes, codes, Bool, true, false, not, ◌&&◌, ◌||◌, List, [], ◌∷◌, ◌++◌, ◌==◌,
  if◌then◌else◌, Option, none, some, bytes_eq, is_empty, ℤ, pos, negsuc,
}
pub mod Location
pub mod Catalog
pub mod Diff
pub mod Launch

pub record HostApp : Type 0 where
  pub name : Bytes
  pub cmd : Bytes
  pub image_path : Bytes
  pub working_dir : Bytes
  pub output : Bytes
  pub elevated : Bool
  pub auto_detach : Bool
  pub wait_all : Bool
  pub exit_timeout : ℤ

unfoldable pub is_uri_target : Bytes → Bool
is_uri_target cmd = contains (codes "://") cmd

-- `windows` is whether _WIN32 is defined.
unfoldable pub host_launch_command : Bool → Bytes → Bytes
host_launch_command windows cmd =
    if is_empty cmd || not (is_uri_target cmd)
    then cmd
    else if windows
    then codes "cmd /C start \"\" \"" ++ cmd ++ codes "\""
    else codes "xdg-open \"" ++ cmd ++ codes "\""

unfoldable pub set_str : Value → Bytes → Bytes → Value
set_str o k v = if not (is_empty v) then set o k (str v) else o

-- One entry of the document.
unfoldable pub app_value : ⦃fl : Floats⦄ → HostApp → Value
app_value ⦃fl⦄ a =
    let o = set (obj no_fields) (codes "name") (str a.name) in
    let o = set_str o (codes "cmd") a.cmd in
    let o = set_str o (codes "image-path") a.image_path in
    let o = set_str o (codes "working-dir") a.working_dir in
    let o = set_str o (codes "output") a.output in
    let o = set o (codes "elevated") (bool a.elevated) in
    let o = set o (codes "auto-detach") (bool a.auto_detach) in
    let o = set o (codes "wait-all") (bool a.wait_all) in
    set o (codes "exit-timeout") (num (fl.of_ℤ a.exit_timeout))

unfoldable pub app_items : ⦃fl : Floats⦄ → List HostApp → Items
app_items [] = no_items
app_items (a ∷ apps) = item (app_value a) (app_items apps)

unfoldable pub apps_value : ⦃fl : Floats⦄ → List HostApp → Value
apps_value apps =
    set (set (obj no_fields) (codes "env") (obj no_fields)) (codes "apps") (arr (app_items apps))

unfoldable pub serialize_apps_json : ⦃fl : Floats⦄ → List HostApp → Bytes
serialize_apps_json apps = dump (apps_value apps)

unfoldable pub read_app : ⦃fl : Floats⦄ → Value → HostApp
read_app ⦃fl⦄ a = record {
  name = get_str a (codes "name") [];
  cmd = get_str a (codes "cmd") [];
  image_path = get_str a (codes "image-path") [];
  working_dir = get_str a (codes "working-dir") [];
  output = get_str a (codes "output") [];
  elevated = get_bool a (codes "elevated") false;
  auto_detach = get_bool a (codes "auto-detach") true;
  wait_all = get_bool a (codes "wait-all") true;
  exit_timeout = fl.to_int (get_num a (codes "exit-timeout") (fl.of_ℤ (pos 5)));
}

unfoldable pub read_items : ⦃fl : Floats⦄ → Items → List HostApp
read_items no_items = []
read_items (item a xs) =
    let rest = read_items xs in
    if not (is_object a)
    then rest
    else if is_empty (get_str a (codes "name") [])
    then rest
    else read_app a ∷ rest

-- The entries under "apps", where that is an array.
unfoldable pub read_array : ⦃fl : Floats⦄ → Option Value → List HostApp
read_array (some (arr xs)) = read_items xs
read_array _ = []

unfoldable pub read_document : ⦃fl : Floats⦄ → Option Value → List HostApp
read_document none = []
read_document (some v) = read_array (find v (codes "apps"))

unfoldable pub parse_apps_json : ⦃fl : Floats⦄ → Bytes → List HostApp
parse_apps_json text = read_document (parse text)

pub record SyncDiff : Type 0 where
  pub added : ℕ
  pub removed : ℕ
  pub updated : ℕ

-- operator== of int
unfoldable pub int_eq : ℤ → ℤ → Bool
int_eq (pos m) (pos n) = m == n
int_eq (negsuc m) (negsuc n) = m == n
int_eq _ _ = false

unfoldable pub bool_eq : Bool → Bool → Bool
bool_eq true b = b
bool_eq false b = not b

-- All fields but the name.
unfoldable pub same : HostApp → HostApp → Bool
same a b =
    bytes_eq a.cmd b.cmd
    && bytes_eq a.image_path b.image_path
    && bytes_eq a.working_dir b.working_dir
    && bytes_eq a.output b.output
    && bool_eq a.elevated b.elevated
    && bool_eq a.auto_detach b.auto_detach
    && bool_eq a.wait_all b.wait_all
    && int_eq a.exit_timeout b.exit_timeout

unfoldable pub find_by_name : List HostApp → Bytes → Option HostApp
find_by_name [] name = none
find_by_name (a ∷ v) name = if bytes_eq a.name name then some a else find_by_name v name

-- One round of the loop over `next`.
abbrev pub note_next : SyncDiff → HostApp → Option HostApp → SyncDiff
note_next d n none = record { added = suc d.added; removed = d.removed; updated = d.updated }
note_next d n (some p) =
    if not (same p n)
    then record { added = d.added; removed = d.removed; updated = suc d.updated }
    else d

-- One round of the loop over `prev`.
abbrev pub note_prev : SyncDiff → Option HostApp → SyncDiff
note_prev d none = record { added = d.added; removed = suc d.removed; updated = d.updated }
note_prev d (some _) = d

unfoldable pub over_next : List HostApp → SyncDiff → List HostApp → SyncDiff
over_next prev d [] = d
over_next prev d (n ∷ next) = over_next prev (note_next d n (find_by_name prev n.name)) next

unfoldable pub over_prev : List HostApp → SyncDiff → List HostApp → SyncDiff
over_prev next d [] = d
over_prev next d (p ∷ prev) = over_prev next (note_prev d (find_by_name next p.name)) prev

unfoldable pub diff_apps : List HostApp → List HostApp → SyncDiff
diff_apps prev next =
    over_prev next (over_next prev (record { added = 0; removed = 0; updated = 0 }) next) prev
