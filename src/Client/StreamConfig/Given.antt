-- ===== src/Client/StreamConfig/Given.antt =====
-- What `validate_stream_settings` of src/client/stream_config.cpp makes of an object, key by key.
use arcade_launcher_stream_e.Client.StreamConfig.Bounds.{InBounds, validate_object_iff}
use arcade_launcher_stream_e.Client.StreamConfig.{
  StreamSettings, accepted, read_settings, validate_stream_settings, int_or,
}
use arcade_launcher_stream_e.Json.Floats.{Floats, Ieee}
use arcade_launcher_stream_e.Json.{
  Value, Fields, null, bool, num, str, arr, obj, field, no_fields, find, find_field, is_object,
  get_num, get_str, get_bool, num_or, str_or, bool_or,
}
use arcade_launcher_stream_e.Base.{
  ◌^◌, ◌<◌, Bytes, codes, Bool, false, if◌then◌else◌, Option, none, some, ◌≡◌, ◌↔◌, [], ◌∷◌, refl,
  sym, arith, bytes_eq, ℤ, pos, magnitude,
}

-- The value of the first field of that name
unfoldable pub first_value : Fields → Bytes → Option Value
first_value no_fields key = none
first_value (field name v fs) key = if bytes_eq name key then some v else first_value fs key

abbrev pub int_of : ⦃fl : Floats⦄ → Option Value → ℤ → ℤ
int_of ⦃fl⦄ (some (num x)) d = fl.to_int x
int_of _ d = d

abbrev pub text_given : Option Value → Bytes → Bytes
text_given (some (str s)) d = s
text_given _ d = d

abbrev pub flag_given : Option Value → Bool → Bool
flag_given (some (bool b)) d = b
flag_given _ d = d

-- What the fields of an object say, and the documented defaults for what they leave out or give in
-- another type.
pub record Given ⦃fl : Floats⦄ (fields : Fields) (s : StreamSettings) : Type 0 where
  pub width : s.width ≡ int_of (first_value fields (codes "width")) (pos 1920)
  pub height : s.height ≡ int_of (first_value fields (codes "height")) (pos 1080)
  pub fps : s.fps ≡ int_of (first_value fields (codes "fps")) (pos 60)
  pub bitrate : s.bitrate_kbps ≡ int_of (first_value fields (codes "bitrateKbps")) (pos 20000)
  pub mode :
      s.display_mode ≡ text_given (first_value fields (codes "displayMode")) (codes "fullscreen")
  pub hdr : s.hdr ≡ flag_given (first_value fields (codes "hdr")) false

bytes_eq_comm : (a b : Bytes) → bytes_eq a b ≡ bytes_eq b a
unfolding bytes_eq
bytes_eq_comm (x ∷ a) (y ∷ b) = rw (bytes_eq_comm a b) (ground arith)
bytes_eq_comm [] [] = refl
bytes_eq_comm [] (y ∷ b) = refl
bytes_eq_comm (x ∷ a) [] = refl

find_field-first_value : (fs : Fields) (key : Bytes) → find_field key fs ≡ first_value fs key
unfolding find_field first_value
find_field-first_value no_fields key = refl
find_field-first_value (field name v fs) key =
    rw (find_field-first_value fs key, bytes_eq_comm key name) refl

module _ ⦃fl : Floats⦄ (laws : Ieee fl) where
  int_or-given :
      (fs : Fields) (key : Bytes) (d : ℤ)
      → magnitude d < 2 ^ 31
      → int_or (obj fs) key d ≡ int_of (first_value fs key) d
  unfolding int_or get_num find num_or
  int_or-given fs key d h =
      rw (int_or, find_field-first_value fs key) (of_value (first_value fs key))
    where
      of_value : (o : Option Value) → fl.to_int (num_or (fl.of_ℤ d) o) ≡ int_of o d
      of_value (some (num x)) = refl
      of_value (some null) = laws.to_int-of_ℤ d h
      of_value (some (bool _)) = laws.to_int-of_ℤ d h
      of_value (some (str _)) = laws.to_int-of_ℤ d h
      of_value (some (arr _)) = laws.to_int-of_ℤ d h
      of_value (some (obj _)) = laws.to_int-of_ℤ d h
      of_value none = laws.to_int-of_ℤ d h

  get_str-given :
      (fs : Fields) (key d : Bytes) → get_str (obj fs) key d ≡ text_given (first_value fs key) d
  unfolding get_str find str_or
  get_str-given fs key d =
      rw (get_str, find_field-first_value fs key) (of_value (first_value fs key))
    where
      of_value : (o : Option Value) → str_or d o ≡ text_given o d
      of_value (some (str _)) = refl
      of_value (some null) = refl
      of_value (some (bool _)) = refl
      of_value (some (num _)) = refl
      of_value (some (arr _)) = refl
      of_value (some (obj _)) = refl
      of_value none = refl

  get_bool-given :
      (fs : Fields) (key : Bytes) (d : Bool)
      → get_bool (obj fs) key d ≡ flag_given (first_value fs key) d
  unfolding get_bool find bool_or
  get_bool-given fs key d =
      rw (get_bool, find_field-first_value fs key) (of_value (first_value fs key))
    where
      of_value : (o : Option Value) → bool_or d o ≡ flag_given o d
      of_value (some (bool _)) = refl
      of_value (some null) = refl
      of_value (some (str _)) = refl
      of_value (some (num _)) = refl
      of_value (some (arr _)) = refl
      of_value (some (obj _)) = refl
      of_value none = refl

  read_settings-Given : (fs : Fields) → Given fs (read_settings (obj fs))
  unfolding read_settings
  read_settings-Given fs = record {
    width = int_or-given fs (codes "width") (pos 1920) (omega arith);
    height = int_or-given fs (codes "height") (pos 1080) (omega arith);
    fps = int_or-given fs (codes "fps") (pos 60) (omega arith);
    bitrate = int_or-given fs (codes "bitrateKbps") (pos 20000) (omega arith);
    mode = get_str-given fs (codes "displayMode") (codes "fullscreen");
    hdr = get_bool-given fs (codes "hdr") false;
  }

  Given-unique : (fs : Fields) (s t : StreamSettings) → Given fs s → Given fs t → s ≡ t
  Given-unique fs s t a b = cc (
    a.width, a.height, a.fps, a.bitrate, a.mode, a.hdr, b.width, b.height, b.fps, b.bitrate, b.mode,
    b.hdr,
  )

  -- An object is accepted with exactly those settings that its fields give, with 1920, 1080, 60,
  -- 20000, "fullscreen" and false for what they leave out, where these lie within the documented
  -- bounds, for doubles that obey the laws.
  pub validate_stream_settings_iff :
      (fs : Fields) (out : StreamSettings)
      → (validate_stream_settings (obj fs) ≡ accepted out) ↔ (InBounds out × Given fs out)
  validate_stream_settings_iff fs out =
      let given = read_settings-Given fs in
      let accepts = validate_object_iff (obj fs) out (unfold is_object in refl) in
      (
        λ h. let (b, e) = accepts.0 h in rw e (b, given),
        λ h.
            let e = Given-unique fs out (read_settings (obj fs)) h.1 given in
            accepts.1 (rw (sym e) h.0, e),
      )
