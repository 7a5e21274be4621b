-- ===== src/Host/Methods.antt =====
-- The handlers of src/host/host_main.cpp, as functions of the state of host mode: the backend with
-- its system, and the three files. `windows` is whether _WIN32 is defined, `stable_uuid` the label
-- made with std::hash, and `paths` the path operations.
use arcade_launcher_stream_e.Host.ClientTrust.{add_trusted_client, has_trusted_client}
use arcade_launcher_stream_e.Host.HostApps.{
  HostApp, parse_apps_json, SyncDiff, host_launch_command, diff_apps, serialize_apps_json,
}
use arcade_launcher_stream_e.Json.Floats.{Floats}
use arcade_launcher_stream_e.Ipc.Server.{Reply, Handler, Handlers, on}
use arcade_launcher_stream_e.Json.{
  Value, null, get_str, Items, arr, find, set, num, item, obj, no_items, get_bool, is_object,
  no_fields, get_num, str, bool,
}
use arcade_launcher_stream_e.Host.Backend.{
  Backend, System, Started, running, Paths, not_started, stop, host_path, start, started,
}
use arcade_launcher_stream_e.Base.{
  ℕ, Bytes, codes, Bool, true, false, not, ◌||◌, List, [], ◌∷◌, ◌++◌, ◌==◌, if◌then◌else◌, Option,
  none, some, length, is_empty, pos,
}
pub mod Effects
pub mod Published

pub record HostState : Type 0 where
  pub backend : Backend
  pub system : System
  -- the apps file, the state file (empty if absent), and the server's certificate (the same)
  pub apps_file : Option Bytes
  pub state_file : Bytes
  pub cert_file : Bytes
  -- whether files can be opened for writing
  pub writable : Bool

abbrev pub answer : Value → Reply
answer v = record { result = v; code = []; message = [] }

abbrev pub refusal : Bytes → Bytes → Reply
refusal code message = record { result = null; code = code; message = message }

-- A game of the launcher.
unfoldable pub game : ⦃fl : Floats⦄ → Bool → Value → HostApp
game ⦃fl⦄ windows g = record {
  name = get_str g (codes "name") [];
  cmd = host_launch_command windows (get_str g (codes "cmd") []);
  image_path = get_str g (codes "image") (get_str g (codes "imagePath") []);
  working_dir = get_str g (codes "workingDir") (get_str g (codes "working-dir") []);
  output = get_str g (codes "output") [];
  elevated = get_bool g (codes "elevated") false;
  auto_detach = get_bool g (codes "autoDetach") true;
  wait_all = get_bool g (codes "waitAll") true;
  exit_timeout = fl.to_int (get_num g (codes "exitTimeout") (fl.of_ℤ (pos 5)));
}

unfoldable pub games_of : ⦃fl : Floats⦄ → Bool → Items → List HostApp
games_of windows no_items = []
games_of windows (item g gs) =
    let rest = games_of windows gs in
    if not (is_object g)
    then rest
    else if is_empty (get_str g (codes "name") [])
    then rest
    else game windows g ∷ rest

abbrev pub games_in : ⦃fl : Floats⦄ → Bool → Option Value → List HostApp
games_in windows (some (arr gs)) = games_of windows gs
games_in windows _ = []

unfoldable pub games_from_params : ⦃fl : Floats⦄ → Bool → Value → List HostApp
games_from_params windows params = games_in windows (find params (codes "games"))

unfoldable pub app_to_json : HostApp → Value
app_to_json a =
    set (set (set (obj no_fields) (codes "name") (str a.name)) (codes "cmd") (str a.cmd))
      (codes "imagePath") (str a.image_path)

unfoldable pub apps_to_json : List HostApp → Items
apps_to_json [] = no_items
apps_to_json (a ∷ apps) = item (app_to_json a) (apps_to_json apps)

-- `read_apps` of src/host/host_apps.cpp
unfoldable pub read_apps : ⦃fl : Floats⦄ → Option Bytes → List HostApp
read_apps none = []
read_apps (some text) = parse_apps_json text

abbrev pub bundled : Backend → Bool
bundled b = not (is_empty b.binary)

module _ ⦃fl : Floats⦄ where
  abbrev pub count_value : ℕ → Value
  count_value n = num (fl.of_ℤ (pos n))

  -- host.status; both questions to the backend ask the system.
  unfoldable pub status : Handler HostState
  status params s =
      let apps = read_apps s.apps_file in
      let (managed, b, w) = running s.backend s.system in
      let (active, b', w') = running b w in
      let r = set (obj no_fields) (codes "installed") (bool (bundled b')) in
      let r = set r (codes "running") (bool active) in
      let r = set r (codes "managed") (bool managed) in
      let r = set r (codes "configured") (bool (not (length apps == 0))) in
      let r = set r (codes "gpuCapable") (bool true) in
      (
        answer (set r (codes "appsCount") (count_value (length apps))),
        record s { backend = b'; system = w' },
      )

  -- The answer of host.enable after `start` or `stop`
  unfoldable pub enabled : HostState → Started × Backend × System → Reply × HostState
  enabled s (not_started msg, b, w) = (
    refusal (if bundled b then codes "internal" else codes "not_installed") msg,
    record s { backend = b; system = w },
  )
  enabled s (started, b, w) =
      let (active, b', w') = running b w in
      (
        answer (set (obj no_fields) (codes "running") (bool active)),
        record s { backend = b'; system = w' },
      )

  -- host.enable
  unfoldable pub enable : Handler HostState
  enable params s =
      let (b, w) = stop s.backend s.system in
      if get_bool params (codes "on") false
      then enabled s (start s.backend s.system)
      else enabled s (started, b, w)

  abbrev pub diff_value : SyncDiff → ℕ → Value
  diff_value d total =
      set
        (set
          (set (set (obj no_fields) (codes "added") (count_value d.added)) (codes "removed")
            (count_value d.removed))
          (codes "updated") (count_value d.updated))
        (codes "total") (count_value total)

  -- host.syncApps
  unfoldable pub sync_apps : Bool → Handler HostState
  sync_apps windows params s =
      let next = games_from_params windows params in
      let d = diff_apps (read_apps s.apps_file) next in
      if not s.writable
      then (
        refusal (codes "internal")
            (codes "could not write apps catalog at " ++ s.backend.apps_path),
        s,
      )
      else (
        answer (diff_value d (length next)),
        record s { apps_file = some (serialize_apps_json next) },
      )

  -- host.listApps
  unfoldable pub list_apps : Handler HostState
  list_apps params s =
      (answer (set (obj no_fields) (codes "apps") (arr (apps_to_json (read_apps s.apps_file)))), s)

  abbrev pub default_name : Bytes
  default_name = codes "ArcadeLauncher client"

  -- The last part of host.trustClient: `already` is known, and the file is written.
  unfoldable pub trusted_answer : Bool → HostState → Reply × HostState
  trusted_answer already s =
      let (alive, b, w) = running s.backend s.system in
      let r = set (obj no_fields) (codes "trusted") (bool true) in
      let r = set r (codes "alreadyTrusted") (bool already) in
      if already then (answer (set r (codes "restartRequired") (bool false)), s) else (
        answer (set r (codes "restartRequired") (bool alive)),
        record s { backend = b; system = w },
      )

  module _ (paths : Paths) (stable_uuid : Bytes → Bytes) where
    -- host.trustClient
    unfoldable pub trust_client : Handler HostState
    trust_client params s =
        let cert = get_str params (codes "certPem") [] in
        let state_path = host_path paths (codes "sunshine_state.json") s.backend.apps_path in
        let next =
          add_trusted_client s.state_file (get_str params (codes "name") default_name) cert
            (stable_uuid cert) in
        if is_empty cert
        then (
          refusal (codes "bad_request") (codes "host.trustClient requires a non-empty certPem"),
          s,
        )
        else if is_empty state_path
        then (refusal (codes "internal") (codes "no Sunshine state path (apps path unset)"), s)
        else if has_trusted_client s.state_file cert
        then trusted_answer true s
        else if not s.writable
        then (
          refusal (codes "internal") (codes "could not write Sunshine state at " ++ state_path),
          s,
        )
        else trusted_answer false (record s { state_file = next })

  -- host.deviceInfo
  unfoldable pub device_info : Handler HostState
  device_info params s =
      let r = set (obj no_fields) (codes "deviceId") (str []) in
      let r = set r (codes "lanAddr") (str []) in
      let r = set r (codes "meshAddr") (str []) in
      let r = set r (codes "certFingerprint") (str []) in
      (answer (set r (codes "serverCertPem") (str s.cert_file)), s)

  -- The certificate is written into the state file at this path; without a path nothing can be read
  -- or written.
  unfoldable pub accept_at : Bytes → Bytes → Bytes → Bytes → HostState → Reply × HostState
  accept_at state_path cert name uuid s =
      let current = if is_empty state_path then [] else s.state_file in
      let r = answer (set (obj no_fields) (codes "trusted") (bool true)) in
      if has_trusted_client current cert
      then (r, s)
      else if is_empty state_path || not s.writable
      then (
        refusal (codes "internal") (codes "could not write Sunshine state at " ++ state_path),
        s,
      )
      else (r, record s { state_file = add_trusted_client current name cert uuid })

  module _ (paths : Paths) (stable_uuid : Bytes → Bytes) where
    -- host.pairAccept; the three bytes in its message are a dash.
    unfoldable pub pair_accept : Handler HostState
    pair_accept params s =
        let cert = get_str params (codes "certPem") [] in
        if is_empty cert
        then (
          refusal (codes "unsupported") (
              codes "host.pairAccept now authorizes by cert "
              ++ (226 ∷ 128 ∷ 148 ∷ codes " pass {name, certPem} (PIN pairing is unused)")),
          s,
        )
        else accept_at (host_path paths (codes "sunshine_state.json") s.backend.apps_path) cert
            (get_str params (codes "name") default_name) (stable_uuid cert) s

    -- `register_host_methods`
    unfoldable pub host_handlers : Bool → Handlers HostState
    host_handlers windows =
        let hs = on [] (codes "host.status") status in
        let hs = on hs (codes "host.enable") enable in
        let hs = on hs (codes "host.syncApps") (sync_apps windows) in
        let hs = on hs (codes "host.listApps") list_apps in
        let hs = on hs (codes "host.trustClient") (trust_client paths stable_uuid) in
        let hs = on hs (codes "host.pairAccept") pair_accept in
        on hs (codes "host.deviceInfo") device_info
