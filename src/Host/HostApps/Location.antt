-- ===== src/Host/HostApps/Location.antt =====
-- Where the files of the engine are on POSIX systems: `data_dir` and `default_apps_path` of
-- src/host/host_apps.cpp, and `default_store_dir` of src/net/identity_store.cpp.
use arcade_launcher_stream_e.Host.Backend.{Paths}
use arcade_launcher_stream_e.Base.{
  Bytes, codes, false, ◌++◌, ◌∷◌, [], if◌then◌else◌, not, Option, none, some, ◌≡◌, refl, is_empty,
}

abbrev pub engine_dir : Bytes
engine_dir = codes "arcade-stream-engine"

-- The values of XDG_DATA_HOME and HOME
unfoldable pub data_dir : Option Bytes → Option Bytes → Bytes
data_dir (some xdg) home = xdg ++ codes "/arcade-stream-engine"
data_dir none (some home) = home ++ codes "/.local/share/arcade-stream-engine"
data_dir none none = codes "."

unfoldable pub default_apps_path : Option Bytes → Option Bytes → Bytes
unfolding data_dir
default_apps_path xdg home = data_dir xdg home ++ codes "/sunshine_apps.json"

-- An unset variable is the empty text.
abbrev pub text_of : Option Bytes → Bytes
text_of none = []
text_of (some text) = text

module _ (paths : Paths) where
  unfoldable pub default_store_dir : Option Bytes → Option Bytes → Bytes
  default_store_dir xdg home =
      if not (is_empty (text_of xdg))
      then paths.join (text_of xdg) engine_dir
      else if not (is_empty (text_of home))
      then paths.join (paths.join (paths.join (text_of home) (codes ".local")) (codes "share"))
          engine_dir
      else paths.join (codes ".") engine_dir

  -- The two parts of the engine use one directory where the variable that counts is set to a text
  -- that is not empty, if `/` of a path puts one separator in between, as it does behind a text that
  -- does not end with one.
  pub default_store_dir-data_dir :
      (dir : Bytes)
      → is_empty dir ≡ false
      → ((name : Bytes) → paths.join dir name ≡ dir ++ (b'/' ∷ name))
      → ((home : Option Bytes) → default_store_dir (some dir) home ≡ data_dir (some dir) home)
  unfolding default_store_dir data_dir
  default_store_dir-data_dir dir full joins home = rw (full, joins engine_dir) refl

-- With XDG_DATA_HOME set to the empty text they differ: the catalog of apps is then below the root.
pub data_dir_empty : (home : Option Bytes) → data_dir (some []) home ≡ codes "/arcade-stream-engine"
unfolding data_dir
data_dir_empty home = refl
