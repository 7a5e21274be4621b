-- ===== src/Client/Start.antt =====
-- client.start and client.stop of src/client/stream_main.cpp, and the registration of the handlers,
-- in the build with OpenSSL and the streaming library.
use arcade_launcher_stream_e.Client.Session.Configuration.{make_ri_key_id}
use arcade_launcher_stream_e.Net.AppList.{resolve_app_id}
use arcade_launcher_stream_e.Host.Methods.{answer, refusal}
use arcade_launcher_stream_e.Net.PairingCrypto.{OpenSsl}
use arcade_launcher_stream_e.Client.Session.Steps.{Answers, stop_session}
use arcade_launcher_stream_e.Net.Network.{draw, launch_through, ask}
use arcade_launcher_stream_e.Net.Xml.{xml_text}
use arcade_launcher_stream_e.Net.HttpClient.{HttpClient}
use arcade_launcher_stream_e.Ipc.Server.{on, empty_object, Reply, Handler, Handlers}
use arcade_launcher_stream_e.Client.Session.{
  Start, StartInfo, Session, start, not_launched, launched, terminates,
}
use arcade_launcher_stream_e.Net.Launch.{LaunchResult, LaunchConfig}
use arcade_launcher_stream_e.Net.Hex.{to_hex}
use arcade_launcher_stream_e.Client.Methods.{
  apps_of, connect_paired_host, stereo_surround_info, fetch_error, client_hosts, client_apps,
  is_serverinfo, client_pair, client_identity, trust_host,
}
use arcade_launcher_stream_e.Json.Floats.{Floats}
use arcade_launcher_stream_e.Client.StreamConfig.{
  Checked, StreamSettings, accepted, validate_stream_settings, bad_params,
}
use arcade_launcher_stream_e.Json.{Value, null, set, find, bool, get_str, get_bool}
use arcade_launcher_stream_e.Client.World.{
  ◌>>=◌, ◌>>◌, Answer, M, World, yields, gives, refuse, on_network, refuses, require,
}
use arcade_launcher_stream_e.Base.{
  ℕ, Bytes, codes, Bool, true, false, not, [], ◌∷◌, ◌++◌, ◌==◌, if◌then◌else◌, Option, none, some,
  length, is_empty, ℤ, pos, atoi, above,
}
pub mod Started

abbrev pub settings_in : Option Value → Value
settings_in none = null
settings_in (some v) = v

abbrev pub settings_or : Checked → M StreamSettings
settings_or (accepted s) = yields s
settings_or (bad_params message) = refuse (codes "bad_params") message

-- The settings in the parameters
unfoldable pub checked_settings : ⦃fl : Floats⦄ → Value → M StreamSettings
checked_settings params =
    settings_or (validate_stream_settings (settings_in (find params (codes "settings"))))

-- The app of a positive number, or the one that the host lists under the name
unfoldable pub choose_app : ⦃fl : Floats⦄ → HttpClient → Bytes → Bytes → M ℤ
unfolding apps_of
choose_app c host app_ref = if above (atoi app_ref) 0 then yields (atoi app_ref) else (do
  apps ← apps_of c (
      codes "could not fetch the app list to resolve '"
      ++ (app_ref ++ (codes "' (" ++ (fetch_error ++ codes ")"))))
  let id = resolve_app_id apps app_ref
  require (above id 0) (codes "app_not_found")
      (codes "no app named '" ++ (app_ref ++ (codes "' on host '" ++ (host ++ codes "'"))))
  yields id)

unfoldable pub launch_config : Bytes → StreamSettings → Bytes → ℤ → Bytes → ℕ → LaunchConfig
unfolding to_hex
launch_config extra_query s gfe_version app_id ri_key ri_key_id = record {
  app_id = app_id;
  width = s.width;
  height = s.height;
  fps = s.fps;
  sops = true;
  local_audio = false;
  hdr = s.hdr;
  gamepad_mask = pos 1;
  persist_controllers = false;
  is_gfe = not (is_empty gfe_version);
  ri_key_hex = to_hex ri_key;
  ri_key_id = pos ri_key_id;
  surround_audio_info = stereo_surround_info;
  extra_query = extra_query;
}

abbrev pub url_or : LaunchResult → M Bytes
url_or (LaunchResult.launched url) = yields url
url_or (LaunchResult.not_launched message) = refuse (codes "internal") message

abbrev pub started_value : Value
started_value = set empty_object (codes "started") (bool true)

-- Where `start` ends the program, `ended` is set and no answer is sent: `stream_main` ends there.
abbrev pub on_start : Start × Session → M Value
on_start (launched, s) w = (gives started_value, record w { session = s })
on_start (not_launched err, s) w = (refuses (codes "engine_busy") err, record w { session = s })
on_start (terminates, s) w = (refuses [] [], record w { session = s; ended = true })

unfoldable pub start_session : StartInfo → M Value
start_session info w = on_start (start info w.session) w

-- What the serverinfo over HTTPS says.
unfoldable pub start_info : Bytes → Bytes → StreamSettings → Bytes → ℕ → Bytes → Bool → StartInfo
start_info host info s ri_key ri_key_id url embed = record {
  host = host;
  server_app_version = xml_text info (codes "appversion");
  gfe_version = xml_text info (codes "GfeVersion");
  rtsp_session_url = url;
  server_codec_mode_support = atoi (xml_text info (codes "ServerCodecModeSupport"));
  settings = s;
  ri_key = ri_key;
  ri_key_id = pos ri_key_id;
  embed_window = embed;
}

module _ ⦃fl : Floats⦄ (extra_query : Bytes) where
  -- The part of client.start behind the choice of the app: the key, the launch and the session.
  unfoldable pub launch_app : Value → StreamSettings → Bytes → Bytes → HttpClient → ℤ → M Value
  unfolding draw launch_config start_info start_session launch_through
  launch_app params s host info c app_id = do
    ri_key ← on_network draw
    four ← on_network draw
    require (length ri_key == 16) (codes "internal")
        (codes "could not generate the remote-input key")
    let cfg =
        launch_config extra_query s (xml_text info (codes "GfeVersion")) app_id ri_key
          (make_ri_key_id four)
    result ← on_network (launch_through c cfg (atoi (xml_text info (codes "currentgame"))))
    url ← url_or result
    start_session (
        start_info host info s ri_key (make_ri_key_id four) url
          (get_bool params (codes "embedWindow") false))

  -- client.start; the three bytes in the message are a dash.
  unfoldable pub client_start : Value → M Value
  unfolding checked_settings connect_paired_host choose_app launch_app ask
  client_start params = do
    s ← checked_settings params
    let host = get_str params (codes "host") []
    require (not (is_empty host)) (codes "bad_params")
        (codes "client.start requires a non-empty string 'host'")
    let app_ref = get_str params (codes "app") []
    require (not (is_empty app_ref)) (codes "bad_params")
        (codes "client.start requires 'app' (a GameStream appid or app name)")
    c ← connect_paired_host host
    info ← on_network (ask true c (codes "serverinfo") [])
    require (is_serverinfo info) (codes "host_unreachable") (
        codes "serverinfo over HTTPS failed "
        ++ (226 ∷ 128 ∷ 148 ∷ codes " the pairing may be stale; re-pair the host"))
    app_id ← choose_app c host app_ref
    launch_app params s host info c app_id

-- client.stop, with what the calls of the worker answer meanwhile
unfoldable pub client_stop : Answers → Value → M Value
client_stop a params w = (
  gives (set empty_object (codes "stopped") (bool true)),
  record w { session = stop_session a w.session },
)

-- The reply of a handler
abbrev pub replied : Answer Value × World → Reply × World
replied (gives v, w) = (answer v, w)
replied (refuses code message, w) = (refusal code message, w)

abbrev pub handled : (Value → M Value) → Handler World
handled method params w = replied (method params w)

-- `register_client_methods`
unfoldable pub client_handlers : ⦃fl : Floats⦄ → OpenSsl → Bytes → Answers → Handlers World
unfolding on
client_handlers ssl extra_query a =
    let hs = on [] (codes "client.hosts") (handled client_hosts) in
    let hs = on hs (codes "client.apps") (handled client_apps) in
    let hs = on hs (codes "client.pair") (handled (client_pair ssl)) in
    let hs = on hs (codes "client.identity") (handled client_identity) in
    let hs = on hs (codes "client.trustHost") (handled trust_host) in
    let hs = on hs (codes "client.start") (handled (client_start extra_query)) in
    on hs (codes "client.stop") (handled (client_stop a))
