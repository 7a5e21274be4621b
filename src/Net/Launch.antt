-- ===== src/Net/Launch.antt =====
-- src/net/nv_launch.cpp: the request that launches or resumes an app. `send` stands for the
-- transport: the answer to a verb and its arguments.
use arcade_launcher_stream_e.Net.Xml.{xml_attr, xml_text}
use arcade_launcher_stream_e.Base.{
  Bytes, codes, Bool, false, not, ◌&&◌, ◌||◌, List, [], ◌∷◌, ◌++◌, ◌==◌, if◌then◌else◌, bytes_eq,
  is_empty, ℤ, pos, negsuc, to_string_ℤ, above,
}
pub mod Answered

pub record LaunchConfig : Type 0 where
  pub app_id : ℤ
  pub width : ℤ
  pub height : ℤ
  pub fps : ℤ
  pub sops : Bool
  pub local_audio : Bool
  pub hdr : Bool
  pub gamepad_mask : ℤ
  pub persist_controllers : Bool
  pub is_gfe : Bool
  pub ri_key_hex : Bytes
  pub ri_key_id : ℤ
  pub surround_audio_info : ℤ
  pub extra_query : Bytes

abbrev pub hdr_query : Bytes
hdr_query =
    codes "&hdrMode=1&clientHdrCapVersion=0&clientHdrCapSupportedFlagsInUint32=0"
    ++ codes
        "&clientHdrCapMetaDataId=NV_STATIC_METADATA_TYPE_1&clientHdrCapDisplayData=0x0x0x0x0x0x0x0x0x0x0"

abbrev pub flag : Bool → Bytes
flag b = if b then codes "1" else codes "0"

-- With GFE, a frame rate above 60 is sent as 0.
unfoldable pub mode_fps : LaunchConfig → ℤ
mode_fps cfg = if above cfg.fps 60 && cfg.is_gfe then pos 0 else cfg.fps

-- The pieces are appended to `q` in this order.
unfoldable pub launch_pieces : LaunchConfig → List Bytes
launch_pieces cfg =
    (codes "appid=" ++ to_string_ℤ cfg.app_id)
    ∷ (codes "&mode="
        ++ (to_string_ℤ cfg.width
            ++ (codes "x"
                ++ (to_string_ℤ cfg.height ++ (codes "x" ++ to_string_ℤ (mode_fps cfg))))))
    ∷ (codes "&additionalStates=1&sops=" ++ flag cfg.sops)
    ∷ (codes "&rikey=" ++ cfg.ri_key_hex)
    ∷ (codes "&rikeyid=" ++ to_string_ℤ cfg.ri_key_id)
    ∷ (if cfg.hdr then hdr_query else [])
    ∷ (codes "&localAudioPlayMode=" ++ flag cfg.local_audio)
    ∷ (codes "&surroundAudioInfo=" ++ to_string_ℤ cfg.surround_audio_info)
    ∷ (codes "&remoteControllersBitmap=" ++ to_string_ℤ cfg.gamepad_mask)
    ∷ (codes "&gcmap=" ++ to_string_ℤ cfg.gamepad_mask)
    ∷ (codes "&gcpersist=" ++ flag cfg.persist_controllers)
    ∷ cfg.extra_query
    ∷ []

unfoldable pub resume_pieces : LaunchConfig → List Bytes
resume_pieces cfg =
    (codes "rikey=" ++ cfg.ri_key_hex)
    ∷ (codes "&rikeyid=" ++ to_string_ℤ cfg.ri_key_id)
    ∷ (codes "&surroundAudioInfo=" ++ to_string_ℤ cfg.surround_audio_info)
    ∷ cfg.extra_query
    ∷ []

unfoldable pub joined : List Bytes → Bytes
joined [] = []
joined (p ∷ ps) = p ++ joined ps

unfoldable pub build_launch_args : LaunchConfig → Bytes
build_launch_args cfg = joined (launch_pieces cfg)

unfoldable pub build_resume_args : LaunchConfig → Bytes
build_resume_args cfg = joined (resume_pieces cfg)

-- `LaunchResult`: the session's URL, or the reason.
pub data LaunchResult : Type 0 where
  launched : Bytes → LaunchResult
  not_launched : Bytes → LaunchResult

abbrev pub with_url : Bytes → Bytes → LaunchResult
with_url verb url =
    if is_empty url
    then not_launched (verb ++ codes " succeeded but returned no sessionUrl0")
    else launched url

-- What is made of the answer.
unfoldable pub read_answer : Bytes → Bytes → LaunchResult
read_answer verb resp =
    if is_empty resp
      || not (bytes_eq (xml_attr resp (codes "root") (codes "status_code")) (codes "200"))
    then not_launched (codes "host rejected " ++ (verb ++ codes " (no status-200 response)"))
    else with_url verb (xml_text resp (codes "sessionUrl0"))

unfoldable pub launch_args : Bytes → LaunchConfig → Bytes
launch_args verb cfg =
    if bytes_eq verb (codes "resume") then build_resume_args cfg else build_launch_args cfg

unfoldable pub run_launch : (Bytes → Bytes → Bytes) → Bytes → LaunchConfig → LaunchResult
run_launch send verb cfg = read_answer verb (send verb (launch_args verb cfg))

abbrev pub is_idle : ℤ → Bool
is_idle (pos n) = n == 0
is_idle (negsuc n) = false

unfoldable pub launch_or_resume : (Bytes → Bytes → Bytes) → LaunchConfig → ℤ → LaunchResult
launch_or_resume send cfg current_game =
    run_launch send (if is_idle current_game then codes "launch" else codes "resume") cfg
