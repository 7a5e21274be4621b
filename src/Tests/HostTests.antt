-- ===== src/Tests/HostTests.antt =====
-- src/host/client_trust.cpp and src/host/host_apps.cpp on a small state file and two small lists.
use arcade_launcher_stream_e.Json.Text.{parse_str, str_loop, str_round}
use arcade_launcher_stream_e.Json.Parser.{parse, parse_result, value, finish}
use arcade_launcher_stream_e.Sample.{small-Ieee, small}
use arcade_launcher_stream_e.Host.ClientTrust.Texts.{has_trusted_client-add_trusted_client}
use arcade_launcher_stream_e.Host.HostApps.Diff.{is_new, is_changed, diff_apps-counts, Alike}
use arcade_launcher_stream_e.Json.Maps.{keys_sorted}
use arcade_launcher_stream_e.Host.HostApps.Catalog.{
  are_apps, is_app, parse_apps_json-serialize_apps_json,
}
use arcade_launcher_stream_e.Host.HostApps.{
  HostApp, parse_apps_json, diff_apps, serialize_apps_json, same,
}
use arcade_launcher_stream_e.Json.RoundTrip.{is_portable}
use arcade_launcher_stream_e.Host.ClientTrust.{has_trusted_client, add_trusted_client, parse_state}
use arcade_launcher_stream_e.Json.{obj, field, no_fields, set_field}
use arcade_launcher_stream_e.Host.HostApps.Diff.{count}
use arcade_launcher_stream_e.Base.{
  Bytes, codes, true, false, ◌||◌, [], ◌∷◌, ◌≡◌, refl, bytes_eq, is_empty, pos, bytes_lt, is_space,
  ◌↔◌,
}

abbrev laptop : Bytes
laptop = codes "laptop"

abbrev cert : Bytes
cert = codes "B"

abbrev uuid : Bytes
uuid = codes "id"

abbrev other : Bytes
other = codes "A"

state_text :
    parse_state (codes "{\"root\":{}}") ≡ obj (field (codes "root") (obj no_fields) no_fields)
unfolding small parse_state parse parse_result value parse_str str_loop str_round set_field finish
    bytes_eq bytes_lt is_empty is_space
state_text = refl

state_text-is_portable : is_portable (parse_state (codes "{\"root\":{}}")) ≡ true
unfolding is_portable keys_sorted
state_text-is_portable = rw state_text

has_trusted_client-add_trusted_client_example :
    has_trusted_client (add_trusted_client (codes "{\"root\":{}}") laptop cert uuid) other
    ≡ (has_trusted_client (codes "{\"root\":{}}") other || bytes_eq cert other)
has_trusted_client-add_trusted_client_example =
    has_trusted_client-add_trusted_client small-Ieee (codes "{\"root\":{}}") laptop cert uuid other
      state_text-is_portable (unfold is_empty in refl)

abbrev desktop : HostApp
desktop = record {
  name = codes "Desktop";
  cmd = [];
  image_path = [];
  working_dir = [];
  output = [];
  elevated = false;
  auto_detach = true;
  wait_all = true;
  exit_timeout = pos 5;
}

abbrev game : HostApp
game = record desktop { name = codes "Game"; cmd = codes "steam://run/1" }

desktop-game-are_apps : are_apps (desktop ∷ game ∷ []) ≡ true
unfolding are_apps is_app is_empty
desktop-game-are_apps = refl

parse_apps_json-serialize_apps_json_example :
    parse_apps_json (serialize_apps_json (desktop ∷ game ∷ [])) ≡ desktop ∷ game ∷ []
parse_apps_json-serialize_apps_json_example =
    parse_apps_json-serialize_apps_json small-Ieee (desktop ∷ game ∷ []) desktop-game-are_apps

diff_apps-counts_example :
    (diff_apps (desktop ∷ []) (game ∷ desktop ∷ []) ≡ record {
      added = count (is_new (desktop ∷ [])) (game ∷ desktop ∷ []);
      removed = count (is_new (game ∷ desktop ∷ [])) (desktop ∷ []);
      updated = count (is_changed (desktop ∷ [])) (game ∷ desktop ∷ []);
    })
    × ((a b : HostApp) → (same a b ≡ true) ↔ Alike a b)
diff_apps-counts_example = diff_apps-counts (desktop ∷ []) (game ∷ desktop ∷ [])
