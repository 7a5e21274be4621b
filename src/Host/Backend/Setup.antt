-- ===== src/Host/Backend/Setup.antt =====
-- The constructor of `SunshineBackend` and `current_exe_dir` of src/host/sunshine_backend.cpp.
use arcade_launcher_stream_e.Host.Backend.{Backend, resolve_sunshine_binary, beside}
use arcade_launcher_stream_e.Base.{
  ℕ, Bytes, Bool, true, false, ◌||◌, ◌&&◌, not, [], ◌∷◌, ◌++◌, ◌==◌, if◌then◌else◌, Option, none,
  some, ◌≡◌, refl, arith, is_empty,
}

abbrev pub is_separator : ℕ → Bool
is_separator c = c == b'/' || c == b'\\'

abbrev pub behind : ℕ → Option Bytes → Option Bytes
behind c (some dir) = some (c ∷ dir)
behind c none = if is_separator c then some [] else none

-- What stands in front of the last separator, if there is one
unfoldable pub dir_of : Bytes → Option Bytes
dir_of [] = none
dir_of (c ∷ s) = behind c (dir_of s)

abbrev pub or_nothing : Option Bytes → Bytes
or_nothing none = []
or_nothing (some s) = s

-- `current_exe_dir` on the path that the link /proc/self/exe leads to, if it can be read
unfoldable pub current_exe_dir : Option Bytes → Bytes
unfolding dir_of
current_exe_dir none = []
current_exe_dir (some exe) = or_nothing (dir_of exe)

-- The constructor; `env` is the value of ARCADE_SUNSHINE.
unfoldable pub new_backend : (Bytes → Bool) → Option Bytes → Option Bytes → Bytes → Backend
unfolding current_exe_dir resolve_sunshine_binary
new_backend exists exe env apps_path = record {
  apps_path = apps_path;
  binary = resolve_sunshine_binary exists (current_exe_dir exe) (or_nothing env);
  pid = 0;
}

-- No separator is in the text.
unfoldable pub is_name : Bytes → Bool
is_name [] = true
is_name (c ∷ s) = not (is_separator c) && is_name s

dir_of_name : (s : Bytes) → is_name s ≡ true → dir_of s ≡ none
unfolding dir_of is_name
dir_of_name [] h = refl
dir_of_name (c ∷ s) h =
    let rest : dir_of s ≡ none = dir_of_name s (ground (arith, h)) in
    let plain : is_separator c ≡ false = ground (arith, h) in rw (rest, plain) refl

dir_of-append : (dir name : Bytes) → is_name name ≡ true → dir_of (dir ++ (b'/' ∷ name)) ≡ some dir
unfolding dir_of
dir_of-append [] name h = rw (dir_of_name name h) refl
dir_of-append (c ∷ dir) name h = rw (dir_of-append dir name h) refl

-- Without the variable, the program that ships beside the engine is taken if it is there, and else
-- none: no installed program of that name is looked for.
pub new_backend-beside :
    (exists : Bytes → Bool) (dir name apps_path : Bytes)
    → is_name name ≡ true
    → is_empty dir ≡ false
    → (new_backend exists (some (dir ++ (b'/' ∷ name))) none apps_path).binary
      ≡ (if exists (beside dir) then beside dir else [])
unfolding new_backend resolve_sunshine_binary current_exe_dir is_empty
new_backend-beside exists dir name apps_path h full =
    rw (dir_of-append dir name h) (ground (arith, full))
