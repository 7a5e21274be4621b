-- ===== src/Tests/MethodTests.antt =====
-- The handlers of src/host/host_main.cpp on a fresh host.
use arcade_launcher_stream_e.Host.Methods.Published.{
  Game, games_params, all_published, sync_apps-read_apps, are_games, is_game,
}
use arcade_launcher_stream_e.Json.Text.{parse_str, str_loop, str_round}
use arcade_launcher_stream_e.Host.Methods.Effects.{trust_client-trusts}
use arcade_launcher_stream_e.Json.Maps.{keys_sorted}
use arcade_launcher_stream_e.Json.Parser.{parse, parse_result, value, finish}
use arcade_launcher_stream_e.Json.RoundTrip.{is_portable}
use arcade_launcher_stream_e.Host.ClientTrust.{
  parse_state, has_trusted_client, named_devices, child_array, child_object, any_cert,
}
use arcade_launcher_stream_e.Host.Methods.{
  HostState, trust_client, read_apps, trusted_answer, sync_apps,
}
use arcade_launcher_stream_e.Sample.{small, small-Ieee}
use arcade_launcher_stream_e.Json.{
  find, Value, obj, get_str, field, str_or, str, find_field, no_fields, set_field,
}
use arcade_launcher_stream_e.Host.Backend.{running, Backend, System, Paths, host_path}
use arcade_launcher_stream_e.Base.{
  Bytes, codes, true, false, ◌||◌, [], ◌∷◌, ◌++◌, none, ◌≡◌, refl, bytes_eq, is_empty, bytes_lt,
  is_space, pos,
}

abbrev idle_backend : Backend
idle_backend = record { apps_path = codes "/a/apps.json"; binary = []; pid = 0 }

abbrev quiet : System
quiet = record {
  polls = [];
  waits = [];
  forks = [];
  spawned = [];
  reaped = [];
  lost = [];
  terminated = [];
  killed = [];
}

abbrev fresh_host : HostState
fresh_host = record {
  backend = idle_backend;
  system = quiet;
  apps_file = none;
  state_file = codes "{\"root\":{}}";
  cert_file = [];
  writable = true;
}

abbrev in_dir : Paths
in_dir = record { parent_path = λ p. codes "/a"; join = λ p file. p ++ (b'/' ∷ file) }

abbrev label : Bytes → Bytes
label seed = codes "id"

abbrev trust_params : Value
trust_params = obj (field (codes "certPem") (str (codes "B")) no_fields)

fresh_state :
    parse_state (codes "{\"root\":{}}") ≡ obj (field (codes "root") (obj no_fields) no_fields)
unfolding small parse_state parse parse_result value parse_str str_loop str_round set_field finish
    bytes_eq bytes_lt is_empty is_space
fresh_state = refl

fresh_state-is_portable : is_portable (parse_state (codes "{\"root\":{}}")) ≡ true
unfolding is_portable keys_sorted
fresh_state-is_portable = rw fresh_state

fresh_trusts_none : has_trusted_client (codes "{\"root\":{}}") (codes "B") ≡ false
unfolding has_trusted_client is_empty named_devices child_array child_object find find_field
    bytes_eq any_cert
fresh_trusts_none = rw fresh_state

trusted_code : (trust_client in_dir label trust_params fresh_host).0.code ≡ []
unfolding trust_client trusted_answer get_str str_or find find_field bytes_eq is_empty host_path
    running
trusted_code = rw fresh_trusts_none

trust_client-trusts_example :
    has_trusted_client (trust_client in_dir label trust_params fresh_host).1.state_file (codes "A")
    ≡ (has_trusted_client fresh_host.state_file (codes "A")
        || bytes_eq (get_str trust_params (codes "certPem") []) (codes "A"))
trust_client-trusts_example =
    trust_client-trusts small-Ieee in_dir label trust_params fresh_host (codes "A")
      fresh_state-is_portable (unfold is_empty in refl) trusted_code

-- {"games": [{"name": "G", "cmd": "steam://1"}]}
abbrev steam_game : Game
steam_game = record {
  name = codes "G";
  cmd = codes "steam://1";
  image = codes "g.png";
  working_dir = [];
  output = [];
  elevated = false;
  auto_detach = true;
  wait_all = false;
  exit_timeout = pos 3;
}

sync_apps-read_apps_example :
    read_apps (sync_apps false (games_params (steam_game ∷ [])) fresh_host).1.apps_file
    ≡ all_published false (steam_game ∷ [])
sync_apps-read_apps_example =
    sync_apps-read_apps small-Ieee false (steam_game ∷ []) fresh_host
      (unfold are_games is_game is_empty in refl) (unfold sync_apps in refl)
