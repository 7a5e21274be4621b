-- ===== src/Client/StreamConfig/Bounds.antt =====
-- Which settings pass, and what passes.
use arcade_launcher_stream_e.Base.{
  ℕ, ◌^◌, ◌<◌, ◌≤◌, Bytes, codes, Bool, true, false, not, ◌&&◌, ◌≡◌, ◌⊎◌, ◌↔◌, refl, sym, ◌∙◌, inl,
  inr, arith, Bool-cases, bytes_eq, bytes_eq_iff, ℤ, pos, negsuc, magnitude, bytes_lt,
}
use arcade_launcher_stream_e.Json.{
  Value, is_null, is_object, null, set, num, str, bool, obj, no_fields, num_or, str_or, bool_or,
  find, find_field, set_field, get_num, get_str, get_bool,
}
use arcade_launcher_stream_e.Json.Floats.{Floats, Ieee}
use arcade_launcher_stream_e.Client.StreamConfig.{
  StreamSettings, accepted, bad_params, validate_stream_settings, check_settings, read_settings,
  default_settings, is_known_mode, outside, int_or, get_num, get_str, get_bool,
}

-- lo ≤ z ≤ hi
abbrev pub Between : ℕ → ℕ → ℤ → Type 0
Between lo hi (pos n) = (lo ≤ n) × (n ≤ hi)
Between lo hi (negsuc n) = ⊥

abbrev pub KnownMode : Bytes → Type 0
KnownMode m = (m ≡ codes "windowed") ⊎ (m ≡ codes "fullscreen") ⊎ (m ≡ codes "borderless")

-- The documented bounds of a stream.
pub record InBounds (s : StreamSettings) : Type 0 where
  pub width : Between 256 7680 s.width
  pub height : Between 144 4320 s.height
  pub fps : Between 10 240 s.fps
  pub bitrate : Between 500 500000 s.bitrate_kbps
  pub mode : KnownMode s.display_mode

outside_iff : (lo hi : ℕ) (z : ℤ) → (outside lo hi z ≡ false) ↔ Between lo hi z
unfolding outside
outside_iff lo hi (pos n) = ground arith
outside_iff lo hi (negsuc n) = ground arith

is_known_mode_iff : (m : Bytes) → (is_known_mode m ≡ true) ↔ KnownMode m
unfolding is_known_mode
is_known_mode_iff m = ground (
  arith,
  bytes_eq_iff m (codes "windowed"),
  bytes_eq_iff m (codes "fullscreen"),
  bytes_eq_iff m (codes "borderless"),
)

-- The checks as one Boolean.
passes : StreamSettings → Bool
passes s =
    not (outside 256 7680 s.width)
    && not (outside 144 4320 s.height)
    && not (outside 10 240 s.fps)
    && not (outside 500 500000 s.bitrate_kbps)
    && is_known_mode s.display_mode

check_settings-passes :
    (s out : StreamSettings) → (check_settings s ≡ accepted out) ↔ ((passes s ≡ true) × (out ≡ s))
unfolding check_settings passes
check_settings-passes s out = (λ h. (ground arith, ground arith), λ h. ground arith)

passes-InBounds : (s : StreamSettings) → (passes s ≡ true) ↔ InBounds s
unfolding passes
passes-InBounds s = (
  λ h. record {
    width = (outside_iff 256 7680 s.width).0 (ground arith);
    height = (outside_iff 144 4320 s.height).0 (ground arith);
    fps = (outside_iff 10 240 s.fps).0 (ground arith);
    bitrate = (outside_iff 500 500000 s.bitrate_kbps).0 (ground arith);
    mode = (is_known_mode_iff s.display_mode).0 (ground arith);
  },
  λ b.
      let w = (outside_iff 256 7680 s.width).1 b.width in
      let h = (outside_iff 144 4320 s.height).1 b.height in
      let f = (outside_iff 10 240 s.fps).1 b.fps in
      let r = (outside_iff 500 500000 s.bitrate_kbps).1 b.bitrate in
      let m = (is_known_mode_iff s.display_mode).1 b.mode in rw (w, h, f, r, m),
)

check_settings-accepted :
    (s out : StreamSettings) → (check_settings s ≡ accepted out) ↔ (InBounds s × (out ≡ s))
check_settings-accepted s out = (
  λ h. let (p, e) = (check_settings-passes s out).0 h in ((passes-InBounds s).0 p, e),
  λ h. (check_settings-passes s out).1 ((passes-InBounds s).1 h.0, h.1),
)

default_InBounds : InBounds default_settings
default_InBounds = record {
  width = omega arith;
  height = omega arith;
  fps = omega arith;
  bitrate = omega arith;
  mode = inr (inl refl);
}

object_not_null : (v : Value) → is_object v ≡ true → is_null v ≡ false
unfolding is_object is_null
object_not_null null h = cc
object_not_null _ h = refl

accepted-injective : (a b : StreamSettings) → accepted a ≡ accepted b → b ≡ a
accepted-injective a b h = cc

pub validate_object_iff :
    ⦃fl : Floats⦄ (settings : Value) (out : StreamSettings)
    → is_object settings ≡ true
    → (validate_stream_settings settings ≡ accepted out)
      ↔ (InBounds (read_settings settings) × (out ≡ read_settings settings))
unfolding validate_stream_settings
validate_object_iff settings out h =
    rw (object_not_null settings h, h) (check_settings-accepted (read_settings settings) out)

validate_null :
    ⦃fl : Floats⦄ (settings : Value)
    → is_null settings ≡ true
    → validate_stream_settings settings ≡ accepted default_settings
unfolding validate_stream_settings
validate_null settings h = rw h

validate_other :
    ⦃fl : Floats⦄ (settings : Value)
    → is_null settings ≡ false
    → is_object settings ≡ false
    → validate_stream_settings settings ≡ bad_params (codes "settings must be an object")
unfolding validate_stream_settings
validate_other settings h k = rw (h, k)

-- Whatever settings the launcher sends, those that pass lie within the documented bounds.
pub validate_stream_settings-InBounds :
    ⦃fl : Floats⦄ (settings : Value) (out : StreamSettings)
    → validate_stream_settings settings ≡ accepted out
    → InBounds out
validate_stream_settings-InBounds settings out h = elim (Bool-cases (is_null settings)) [
  | inl e ↦
      let same = accepted-injective default_settings out (sym (validate_null settings e) ∙ h) in
      rw same default_InBounds
  | inr e ↦ elim (Bool-cases (is_object settings)) [
    | inl o ↦ let (b, same) = (validate_object_iff settings out o).0 h in rw same b
    | inr o ↦ absurd (cc (validate_other settings e o, h))
  ]
]

-- Settings as the launcher writes them.
abbrev pub settings_value : ⦃fl : Floats⦄ → StreamSettings → Value
settings_value ⦃fl⦄ s =
    set
      (set
        (set
          (set
            (set (set (obj no_fields) (codes "width") (num (fl.of_ℤ s.width))) (codes "height")
              (num (fl.of_ℤ s.height)))
            (codes "fps") (num (fl.of_ℤ s.fps)))
          (codes "bitrateKbps") (num (fl.of_ℤ s.bitrate_kbps)))
        (codes "displayMode") (str s.display_mode))
      (codes "hdr") (bool s.hdr)

Between-small : (lo hi : ℕ) (z : ℤ) → hi < 2 ^ 31 → Between lo hi z → magnitude z < 2 ^ 31
Between-small lo hi (pos n) h b = omega arith
Between-small lo hi (negsuc n) h b = absurd b

read_settings-settings_value :
    ⦃fl : Floats⦄ (laws : Ieee fl) (s : StreamSettings)
    → InBounds s
    → read_settings (settings_value s) ≡ s
unfolding read_settings int_or get_num get_str get_bool num_or str_or bool_or find find_field set
    set_field bytes_eq bytes_lt
read_settings-settings_value laws s b = rw (
  laws.to_int-of_ℤ s.width (Between-small 256 7680 s.width (omega arith) b.width),
  laws.to_int-of_ℤ s.height (Between-small 144 4320 s.height (omega arith) b.height),
  laws.to_int-of_ℤ s.fps (Between-small 10 240 s.fps (omega arith) b.fps),
  laws.to_int-of_ℤ s.bitrate_kbps (Between-small 500 500000 s.bitrate_kbps (omega arith) b.bitrate),
)

-- Settings within the bounds, written out as an object, come out unchanged, for doubles that obey
-- the laws.
pub validate_stream_settings-settings_value :
    ⦃fl : Floats⦄ (laws : Ieee fl) (s : StreamSettings)
    → InBounds s
    → validate_stream_settings (settings_value s) ≡ accepted s
validate_stream_settings-settings_value laws s b =
    let read = read_settings-settings_value laws s b in
    (validate_object_iff (settings_value s) s (unfold set is_object in refl)).1
      (rw read b, sym read)
