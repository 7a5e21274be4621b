-- ===== src/Host/HostApps/Catalog.antt =====
-- The app list and its text: what is written is read back.
use arcade_launcher_stream_e.Json.Numbers.{is_portable_num}
use arcade_launcher_stream_e.Json.Maps.{keys_sorted}
use arcade_launcher_stream_e.Json.Portable.{is_portable-set}
use arcade_launcher_stream_e.Json.RoundTrip.{is_portable, are_portable, parse-dump}
use arcade_launcher_stream_e.Json.Access.{find-set, find-set_self}
use arcade_launcher_stream_e.Json.Floats.{Floats, Ieee, nine_e15}
use arcade_launcher_stream_e.Host.HostApps.{
  HostApp, set_str, str, set, find, read_app, obj, app_value, bool, get_str, num, get_bool, arr,
  get_num, no_fields, read_items, app_items, apps_value, parse_apps_json, serialize_apps_json,
  read_document, read_array,
}
use arcade_launcher_stream_e.Json.{
  Value, str_or, is_object, set, null, find_field, bool_or, num_or, get_str, get_bool, get_num,
  find, set_field,
}
use arcade_launcher_stream_e.Base.{
  ◌^◌, ◌<◌, Bytes, codes, Bool, true, false, not, ◌&&◌, List, [], ◌∷◌, ltb, if◌then◌else◌, none,
  some, ◌≡◌, refl, inl, inr, arith, Bool-cases, bytes_eq, is_empty, magnitude, ltb→lt, and_right,
}

find-new : (k : Bytes) → find (obj no_fields) k ≡ none
unfolding find find_field
find-new k = refl

module _ (v : Value) (s : Bytes) (k : Bytes) where
  find-set_str :
      (j : Bytes)
      → find (set_str v k s) j
        ≡ (if bytes_eq k j then (if not (is_empty s) then some (str s) else find v j) else find v j)
  unfolding set_str
  find-set_str j = elim (Bool-cases (is_empty s)) [
    | inl e ↦ rw e (elim (Bool-cases (bytes_eq k j)) [ inl q ↦ rw q | inr q ↦ rw q ])
    | inr e ↦ rw e (find-set v (str s) k j)
  ]

str_or-set_str : (s : Bytes) → str_or [] (if not (is_empty s) then some (str s) else none) ≡ s
unfolding str_or is_empty
str_or-set_str [] = refl
str_or-set_str (c ∷ s) = refl

is_object-set : (v w : Value) (k : Bytes) → is_object (set v k w) ≡ true
unfolding is_object set
is_object-set (obj fs) w k = refl
is_object-set null w k = refl
is_object-set (bool b) w k = refl
is_object-set (num x) w k = refl
is_object-set (str s) w k = refl
is_object-set (arr xs) w k = refl

-- An `int` holds the exit timeout, and the name is not empty.
unfoldable pub is_app : HostApp → Bool
is_app a = not (is_empty a.name) && ltb (magnitude a.exit_timeout) (2 ^ 31)

unfoldable pub are_apps : List HostApp → Bool
are_apps [] = true
are_apps (a ∷ apps) = is_app a && are_apps apps

module _ ⦃fl : Floats⦄ (laws : Ieee fl) where
  to_int-exit_timeout :
      (a : HostApp) → is_app a ≡ true → fl.to_int (fl.of_ℤ a.exit_timeout) ≡ a.exit_timeout
  unfolding is_app
  to_int-exit_timeout a h =
      laws.to_int-of_ℤ a.exit_timeout (ltb→lt (magnitude a.exit_timeout) (2 ^ 31) (ground arith))

  read_app-app_value : (a : HostApp) → is_app a ≡ true → read_app (app_value a) ≡ a
  unfolding read_app app_value get_str get_bool get_num bytes_eq bool_or num_or str_or is_app
  read_app-app_value a h =
      simp (find-set, find-set_str, find-new, str_or-set_str, to_int-exit_timeout a h) refl

  name-app_value : (a : HostApp) → get_str (app_value a) (codes "name") [] ≡ a.name
  unfolding app_value get_str bytes_eq str_or
  name-app_value a = simp (find-set, find-set_str) refl

  is_object-app_value : (a : HostApp) → is_object (app_value a) ≡ true
  unfolding app_value
  is_object-app_value a = is_object-set _ _ (codes "exit-timeout")

  read_items-app_items :
      (apps : List HostApp) → are_apps apps ≡ true → read_items (app_items apps) ≡ apps
  unfolding read_items app_items are_apps
  read_items-app_items [] h = refl
  read_items-app_items (a ∷ apps) h =
      let named : is_empty a.name ≡ false = unfold is_app in ground arith in
      rw (
        is_object-app_value a,
        name-app_value a,
        named,
        read_app-app_value a (ground arith),
        read_items-app_items apps (ground arith),
      )

  is_portable-set_str :
      (v : Value) (k s : Bytes) → is_portable v ≡ true → is_portable (set_str v k s) ≡ true
  unfolding set_str
  is_portable-set_str v k s h = elim (Bool-cases (is_empty s)) [
    | inl e ↦ rw e h
    | inr e ↦ rw e (is_portable-set v (str s) k h (unfold is_portable in refl))
  ]

  portable_timeout :
      (a : HostApp) → is_app a ≡ true → is_portable (num (fl.of_ℤ a.exit_timeout)) ≡ true
  unfolding is_app is_portable is_portable_num
  portable_timeout a h =
      let bound : magnitude a.exit_timeout < nine_e15 =
        omega (arith, ltb→lt (magnitude a.exit_timeout) (2 ^ 31) (and_right _ _ h)) in
      ground (arith, laws.of_ℤ_finite a.exit_timeout bound, laws.of_ℤ_zero a.exit_timeout bound)

  is_portable-app_value : (a : HostApp) → is_app a ≡ true → is_portable (app_value a) ≡ true
  unfolding app_value
  is_portable-app_value a h =
      let fine : is_portable (num (fl.of_ℤ a.exit_timeout)) ≡ true = portable_timeout a h in
      let text : (s : Bytes) → is_portable (str s) ≡ true = λ s. unfold is_portable in refl in
      let test : (b : Bool) → is_portable (bool b) ≡ true = λ b. unfold is_portable in refl in
      let empty : is_portable (obj no_fields) ≡ true = unfold is_portable keys_sorted in refl in
      let strings = is_portable-set_str _ (codes "output") a.output (
        is_portable-set_str _ (codes "working-dir") a.working_dir (
          is_portable-set_str _ (codes "image-path") a.image_path (
            is_portable-set_str _ (codes "cmd") a.cmd (
              is_portable-set (obj no_fields) (str a.name) (codes "name") empty (text a.name))))) in
      is_portable-set _ _ (codes "exit-timeout")
        (is_portable-set _ _ (codes "wait-all")
          (is_portable-set _ _ (codes "auto-detach")
            (is_portable-set _ _ (codes "elevated") strings (test a.elevated)) (test a.auto_detach))
          (test a.wait_all))
        fine

  are_portable-app_items :
      (apps : List HostApp) → are_apps apps ≡ true → are_portable (app_items apps) ≡ true
  unfolding app_items are_apps is_portable
  are_portable-app_items [] h = refl
  are_portable-app_items (a ∷ apps) h =
      ground (arith, is_portable-app_value a, are_portable-app_items apps)

  is_portable-apps_value :
      (apps : List HostApp) → are_apps apps ≡ true → is_portable (apps_value apps) ≡ true
  unfolding apps_value
  is_portable-apps_value apps h =
      is_portable-set _ (arr (app_items apps)) (codes "apps")
        (unfold is_portable keys_sorted set set_field in refl)
        (unfold is_portable in are_portable-app_items apps h)

-- Apps that are written to the file are read back as they were, when each of them has a name and
-- an exit timeout that an `int` holds.
pub parse_apps_json-serialize_apps_json :
    ⦃fl : Floats⦄ (laws : Ieee fl) (apps : List HostApp)
    → are_apps apps ≡ true
    → parse_apps_json (serialize_apps_json apps) ≡ apps
unfolding parse_apps_json serialize_apps_json
parse_apps_json-serialize_apps_json laws apps h =
    rw (parse-dump laws (apps_value apps) (is_portable-apps_value laws apps h)) (
      unfold read_document apps_value in
      rw (find-set_self _ (arr (app_items apps)) (codes "apps"))
        (unfold read_array in read_items-app_items laws apps h))
