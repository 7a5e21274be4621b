-- ===== src/Host/Methods/Published.antt =====
-- host.syncApps of src/host/host_main.cpp on the games that a launcher publishes.
use arcade_launcher_stream_e.Host.Methods.Effects.{sync_apps-games}
use arcade_launcher_stream_e.Host.HostApps.Catalog.{are_apps, is_app}
use arcade_launcher_stream_e.Host.HostApps.{HostApp, host_launch_command, is_uri_target}
use arcade_launcher_stream_e.Host.Methods.{
  HostState, sync_apps, read_apps, game, games_of, games_from_params,
}
use arcade_launcher_stream_e.Json.Floats.{Floats, Ieee}
use arcade_launcher_stream_e.Json.{
  Value, Items, obj, arr, field, num, str, bool, item, no_items, no_fields, find, find_field,
  get_str, get_num, get_bool, str_or, num_or, bool_or, is_object,
}
use arcade_launcher_stream_e.Base.{
  ◌^◌, Bytes, codes, Bool, true, false, not, ◌&&◌, List, [], ◌∷◌, ◌++◌, ltb, if◌then◌else◌, ◌≡◌,
  refl, arith, bytes_eq, is_empty, contains, ℤ, magnitude, ltb→lt, ◌∙◌,
}

-- A game of the launcher: what it says about each of the nine keys
pub record Game : Type 0 where
  pub name : Bytes
  pub cmd : Bytes
  pub image : Bytes
  pub working_dir : Bytes
  pub output : Bytes
  pub elevated : Bool
  pub auto_detach : Bool
  pub wait_all : Bool
  pub exit_timeout : ℤ

-- It has a name, and an int holds its timeout.
unfoldable pub is_game : Game → Bool
is_game g = not (is_empty g.name) && ltb (magnitude g.exit_timeout) (2 ^ 31)

unfoldable pub are_games : List Game → Bool
are_games [] = true
are_games (g ∷ gs) = is_game g && are_games gs

module _ ⦃fl : Floats⦄ where
  abbrev pub game_value : Game → Value
  game_value g = obj (
      field (codes "autoDetach") (bool g.auto_detach) (
        field (codes "cmd") (str g.cmd) (
          field (codes "elevated") (bool g.elevated) (
            field (codes "exitTimeout") (num (fl.of_ℤ g.exit_timeout)) (
              field (codes "image") (str g.image) (
                field (codes "name") (str g.name) (
                  field (codes "output") (str g.output) (
                    field (codes "waitAll") (bool g.wait_all)
                      (field (codes "workingDir") (str g.working_dir) no_fields)))))))))

  unfoldable pub game_items : List Game → Items
  game_items [] = no_items
  game_items (g ∷ gs) = item (game_value g) (game_items gs)

  -- The parameters that publish the games
  abbrev pub games_params : List Game → Value
  games_params gs = obj (field (codes "games") (arr (game_items gs)) no_fields)

-- How a game is started: a URI by the command of the system that opens it, anything else as it is.
unfoldable pub start_command : Bool → Bytes → Bytes
start_command windows cmd =
    if contains (codes "://") cmd
    then (if windows
        then codes "cmd /C start \"\" \"" ++ (cmd ++ codes "\"")
        else codes "xdg-open \"" ++ (cmd ++ codes "\""))
    else cmd

abbrev pub published : Bool → Game → HostApp
published windows g = record {
  name = g.name;
  cmd = start_command windows g.cmd;
  image_path = g.image;
  working_dir = g.working_dir;
  output = g.output;
  elevated = g.elevated;
  auto_detach = g.auto_detach;
  wait_all = g.wait_all;
  exit_timeout = g.exit_timeout;
}

unfoldable pub all_published : Bool → List Game → List HostApp
all_published windows [] = []
all_published windows (g ∷ gs) = published windows g ∷ all_published windows gs

host_launch_command-start_command :
    (windows : Bool) (cmd : Bytes) → host_launch_command windows cmd ≡ start_command windows cmd
unfolding host_launch_command start_command is_uri_target is_empty
host_launch_command-start_command windows [] = unfold contains in refl
host_launch_command-start_command windows (c ∷ cmd) = ground arith

module _ ⦃fl : Floats⦄ (laws : Ieee fl) (windows : Bool) where
  game-published : (g : Game) → is_game g ≡ true → game windows (game_value g) ≡ published windows g
  unfolding game get_str get_num get_bool find find_field bytes_eq str_or num_or bool_or is_game
  game-published g h =
      rw
        (
          host_launch_command-start_command windows g.cmd,
          laws.to_int-of_ℤ g.exit_timeout
              (ltb→lt (magnitude g.exit_timeout) (2 ^ 31) (ground arith)),
        )
        refl

  name-game_value : (g : Game) → get_str (game_value g) (codes "name") [] ≡ g.name
  unfolding get_str find find_field bytes_eq str_or
  name-game_value g = refl

  games_of-published :
      (gs : List Game)
      → are_games gs ≡ true
      → games_of windows (game_items gs) ≡ all_published windows gs
  unfolding games_of game_items all_published are_games is_object
  games_of-published [] h = refl
  games_of-published (g ∷ gs) h =
      let named : is_empty g.name ≡ false = unfold is_game in ground arith in
      let rest = games_of-published gs (ground arith) in
      let this = game-published g (ground arith) in rw (name-game_value g, named, rest, this) refl

  are_apps-published :
      (gs : List Game) → are_games gs ≡ true → are_apps (all_published windows gs) ≡ true
  unfolding are_apps is_app are_games is_game all_published
  are_apps-published [] h = refl
  are_apps-published (g ∷ gs) h = rw (are_apps-published gs (ground arith)) (ground arith)

  -- When host.syncApps reports no error on the games that a launcher publishes, the apps file that it
  -- leaves lists exactly these, in their order and with all nine fields, a URI to start as the command
  -- that opens it; for doubles that obey the laws, when each game has a name and a timeout that an int
  -- holds.
  pub sync_apps-read_apps :
      (gs : List Game) (s : HostState)
      → are_games gs ≡ true
      → (sync_apps windows (games_params gs) s).0.code ≡ []
      → read_apps (sync_apps windows (games_params gs) s).1.apps_file ≡ all_published windows gs
  sync_apps-read_apps gs s h ok_code =
      let same : games_from_params windows (games_params gs) ≡ all_published windows gs =
        unfold games_from_params find find_field bytes_eq in games_of-published gs h in
      let proper : are_apps (games_from_params windows (games_params gs)) ≡ true =
        rw same (are_apps-published gs h) in
      sync_apps-games laws windows (games_params gs) s proper ok_code ∙ same
