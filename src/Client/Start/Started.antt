-- ===== src/Client/Start/Started.antt =====
-- What client.start has done when it answers that the stream is started, and what it leaves alone when
-- it refuses.
use arcade_launcher_stream_e.Client.Methods.{fetched}
use arcade_launcher_stream_e.Net.AppList.{AppInfo}
use arcade_launcher_stream_e.Client.Session.Configuration.{make_ri_key_id_bound}
use arcade_launcher_stream_e.Client.Session.Safety.{start-same, start-opening}
use arcade_launcher_stream_e.Net.Launch.{launch_args}
use arcade_launcher_stream_e.Net.Store.{find_host}
use arcade_launcher_stream_e.Net.Network.{
  Request, request_of, launch_verb, launch_through, Network, fetch_through,
}
use arcade_launcher_stream_e.Client.StreamConfig.Bounds.{
  InBounds, validate_stream_settings-InBounds,
}
use arcade_launcher_stream_e.Client.World.Rules.{
  Does, Does-mono, given, Does-bind, refused, Does-then, Does-require, Does-network, Post-refuses,
}
use arcade_launcher_stream_e.Client.Start.{
  checked_settings, choose_app, LaunchConfig, StreamSettings, accepted, to_hex, settings_or,
  bad_params, settings_in, find, resolve_app_id, launch_through, LaunchResult, launch_app, url_or,
  draw, on_network, on_start, start_session, start_info, client_start, launch_config, refuses,
  make_ri_key_id, get_bool, xml_text, is_serverinfo,
}
use arcade_launcher_stream_e.Client.StreamConfig.{Checked}
use arcade_launcher_stream_e.Client.Methods.Channel.{
  Follows, Bound, are_pinned, Does-apps_of, Follows-ask, Follows-draw, Follows-ask_new,
  Does-connect_paired_host, Does-ask, Probe, Careful, Untouched, followed, untouched,
  Untouched_refl,
}
use arcade_launcher_stream_e.Client.Session.{
  StartInfo, opening, Start, Session, not_launched, launched, terminates, start,
}
use arcade_launcher_stream_e.Net.HttpClient.{HttpClient}
use arcade_launcher_stream_e.Client.World.{World, M, on_network}
use arcade_launcher_stream_e.Json.{Value, get_str}
use arcade_launcher_stream_e.Json.Floats.{Floats}
use arcade_launcher_stream_e.Base.{
  ℕ, ◌^◌, ◌<◌, Bytes, codes, true, false, not, List, [], ◌∷◌, ◌++◌, ◌==◌, ◌≡◌, ◌⊎◌, refl, ap, ◌∙◌,
  inl, inr, length, Bool-cases, is_empty, ℤ, pos, atoi, above, subst, ==_iff, some,
}

module _ ⦃fl : Floats⦄ (extra_query : Bytes) (params : Value) (start_world : World) where
  -- the host in the parameters
  abbrev wanted : Bytes
  wanted = get_str params (codes "host") []

  -- The request that launches or resumes an app through a client
  abbrev launch_request : HttpClient → ℤ → LaunchConfig → Request
  launch_request c game cfg =
      request_of true c (launch_verb game) (launch_args (launch_verb game) cfg)

  -- The app is the one of the number in the parameters where that is positive, or else the one that
  -- an app list of the host has under the name.
  pub Chosen : HttpClient → Bytes → ℤ → Type 0
  Chosen c app_ref id =
      ((above (atoi app_ref) 0 ≡ true) × (id ≡ atoi app_ref))
      ⊎ ((above (atoi app_ref) 0 ≡ false)
          × ((net : Network) × (apps : List AppInfo) × (fetched (fetch_through c net).0 ≡ some apps)
              × (id ≡ resolve_app_id apps app_ref)))

  -- The state behind a start: the worker is made for a request with settings in range and a key of 16
  -- bytes; the first request was the serverinfo over plain HTTP, all others went to the paired host
  -- over HTTPS with its certificate pinned, and the last was the launch of the wanted app, or the
  -- resume where a game is running, with that key and that id of the key.
  pub record Started (w : World) : Type 0 where
    pub info : StartInfo
    pub opened : w.session.worker ≡ opening info
    pub in_bounds : InBounds info.settings
    pub to_host : info.host ≡ wanted
    pub whole_key : length info.ri_key ≡ 16
    pub key_id : ℕ
    pub small_id : key_id < 2 ^ 31
    pub same_id : info.ri_key_id ≡ pos key_id
    pub client : HttpClient
    pub game : ℤ
    pub config : LaunchConfig
    pub positive_app : above config.app_id 0 ≡ true
    pub chosen : Chosen client (get_str params (codes "app") []) config.app_id
    pub sent_key : config.ri_key_hex ≡ to_hex info.ri_key
    pub sent_id : config.ri_key_id ≡ info.ri_key_id
    pub probe : Request
    pub probes : Probe wanted probe
    pub before : List Request
    pub requested :
        w.network.requests
        ≡ start_world.network.requests
          ++ (probe ∷ (before ++ (launch_request client game config ∷ [])))
    pub secured :
        are_pinned
          (find_host wanted start_world.hosts_file)
          wanted
          (before ++ (launch_request client game config ∷ []))
        ≡ true

  -- What holds of a refusal: nothing was done but the probe and pinned requests, or the program has
  -- ended.
  abbrev pub Unharmed : World → Type 0
  Unharmed w = Careful wanted start_world w ⊎ (w.ended ≡ true)

  abbrev Going : World → Type 0
  Going = Follows wanted start_world

  abbrev Fresh : World → Type 0
  Fresh = Untouched wanted start_world

  loose :
      {A : Type 0} {J : A → World → Type 0} {m : M A} {w : World}
      → Does J (Careful wanted start_world) m w
      → Does J Unharmed m w
  loose done = Does-mono (λ a v j. j) (λ v k. inl k) done

  going :
      {A : Type 0} {J : A → World → Type 0} {m : M A} {w : World}
      → Does J Going m w
      → Does J Unharmed m w
  going done = loose (followed wanted start_world done)

  fresh :
      {A : Type 0} {J : A → World → Type 0} {m : M A} {w : World}
      → Does J Fresh m w
      → Does J Unharmed m w
  fresh done = loose (untouched wanted start_world done)

  Does-settings_or :
      (r : Checked) (w : World)
      → ((out : StreamSettings) → r ≡ accepted out → InBounds out)
      → Fresh w
      → Does (λ s v. InBounds s × Fresh v) Fresh (settings_or r) w
  Does-settings_or (accepted s) w bounds f = record { behind = given (bounds s refl, f) }
  Does-settings_or (bad_params message) w bounds f = record { behind = refused f }

  Does-checked_settings :
      (w : World) → Fresh w → Does (λ s v. InBounds s × Fresh v) Fresh (checked_settings params) w
  unfolding checked_settings
  Does-checked_settings w f =
      Does-settings_or _ w
        (λ out h.
          validate_stream_settings-InBounds (settings_in (find params (codes "settings"))) out h)
        f

  Does-choose_app :
      (c : HttpClient) (app_ref : Bytes) (w : World)
      → Bound wanted start_world c
      → Going w
      → Does
          (λ id v. ((above id 0 ≡ true) × Chosen c app_ref id) × Going v)
          Going
          (choose_app c wanted app_ref)
          w
  unfolding choose_app Chosen
  Does-choose_app c app_ref w b f = elim (Bool-cases (above (atoi app_ref) 0)) [
    | inl h ↦ rw h (record { behind = given ((h, inl (refl, refl)), f) })
    | inr h ↦ rw h (
        Does-bind (Does-apps_of wanted start_world c _ w b f) λ apps v (listed, g).
          Does-then (Does-require (above (resolve_app_id apps app_ref) 0) _ _ g) λ u (p, k).
            record { behind = given ((p, inr (refl, (w.network, apps, listed, refl))), k) })
  ]

  -- The last request of `before` and one more is the launch.
  Asked : HttpClient → ℤ → LaunchConfig → World → Type 0
  Asked c game cfg v =
      (g : Going v) × (before : List Request) × (g.new ≡ before ++ (launch_request c game cfg ∷ []))

  Does-launch :
      (c : HttpClient) (cfg : LaunchConfig) (game : ℤ) (w : World)
      → Bound wanted start_world c
      → Going w
      → Does (λ result v. Asked c game cfg v) Going (on_network (launch_through c cfg game)) w
  unfolding launch_through Asked on_network
  Does-launch c cfg game w b f =
      let verb = launch_verb game in
      Does-network (launch_through c cfg game) w (
        Follows-ask wanted start_world c verb (launch_args verb cfg) w b f,
        f.new,
        (Follows-ask_new wanted start_world c verb (launch_args verb cfg) w b f).0,
      )

  Does-url_or :
      (result : LaunchResult) (c : HttpClient) (cfg : LaunchConfig) (game : ℤ) (w : World)
      → Asked c game cfg w
      → Does (λ url v. Asked c game cfg v) Going (url_or result) w
  unfolding Asked
  Does-url_or (LaunchResult.launched url) c cfg game w a = record { behind = given a }
  Does-url_or (LaunchResult.not_launched message) c cfg game w a = record { behind = refused a.0 }

  Does-on_start :
      (info : StartInfo) (r : Start × Session) (w : World)
      → Going w
      → ((err : Bytes) → r.0 ≡ not_launched err → r.1 ≡ w.session)
      → (r.0 ≡ launched → Started (record w { session = r.1 }))
      → Does (λ v u. Started u) Unharmed (on_start r) w
  Does-on_start info (launched, s) w f same good = record { behind = given (good refl) }
  Does-on_start info (terminates, s) w f same good = record { behind = refused (inr refl) }
  Does-on_start info (not_launched err, s) w f same good = record {
    behind = refused (
        inl (
          inr (record {
            same_hosts = f.same_hosts;
            same_session = same err refl ∙ f.same_session;
            same_ended = f.same_ended;
            probe = f.probe;
            probes = f.probes;
            new = f.new;
            appended = f.appended;
            secured = f.secured;
          })));
  }

  starts :
      (si : StartInfo) (c : HttpClient) (cfg : LaunchConfig) (game : ℤ) (w : World) (id : ℕ)
      → Asked c game cfg w
      → InBounds si.settings
      → si.host ≡ wanted
      → length si.ri_key ≡ 16
      → id < 2 ^ 31
      → si.ri_key_id ≡ pos id
      → (above cfg.app_id 0 ≡ true) × Chosen c (get_str params (codes "app") []) cfg.app_id
      → cfg.ri_key_hex ≡ to_hex si.ri_key
      → cfg.ri_key_id ≡ si.ri_key_id
      → Does (λ v u. Started u) Unharmed (start_session si) w
  unfolding start_session Asked
  starts si c cfg game w id (g, before, new) bounds host whole small named app key same = record {
    behind = (Does-on_start si (start si w.session) w g kept good).behind;
  }
    where
      kept :
          (err : Bytes)
          → (start si w.session).0 ≡ not_launched err
          → (start si w.session).1 ≡ w.session
      kept err h = start-same si w.session err h

      good :
          (start si w.session).0 ≡ launched
          → Started (record w { session = (start si w.session).1 })
      good h = record {
        info = si;
        opened = start-opening si w.session h;
        in_bounds = bounds;
        to_host = host;
        whole_key = whole;
        key_id = id;
        small_id = small;
        same_id = named;
        client = c;
        game = game;
        config = cfg;
        positive_app = app.0;
        chosen = app.1;
        sent_key = key;
        sent_id = same;
        probe = g.probe;
        probes = g.probes;
        before = before;
        requested = g.appended ∙ ap (λ l. start_world.network.requests ++ (g.probe ∷ l)) new;
        secured =
            subst (λ l. are_pinned (find_host wanted start_world.hosts_file) wanted l ≡ true) new
              g.secured;
      }

  Does-launch_app :
      (s : StreamSettings) (info : Bytes) (c : HttpClient) (app_id : ℤ) (w : World)
      → InBounds s
      → Bound wanted start_world c
      → (above app_id 0 ≡ true) × Chosen c (get_str params (codes "app") []) app_id
      → Going w
      → Does (λ v u. Started u) Unharmed (launch_app extra_query params s wanted info c app_id) w
  unfolding launch_app start_info launch_config
  Does-launch_app s info c app_id w bounds b p f =
      Does-bind (going (Does-network {J = λ key v. Going v} draw w (drawn w f))) λ ri_key w1 f1.
        Does-bind (going (Does-network {J = λ key v. Going v} draw w1 (drawn w1 f1))) λ four w2 f2.
          Does-then (going (Does-require (length ri_key == 16) _ _ f2)) λ w3 (whole, f3).
            Does-bind (going (Does-launch c _ _ w3 b f3)) λ result w4 a4.
              Does-bind (going (Does-url_or result c _ _ w4 a4)) λ url w5 a5.
                let si =
                  start_info wanted info s ri_key (make_ri_key_id four) url
                    (get_bool params (codes "embedWindow") false) in
                let cfg =
                  launch_config extra_query s (xml_text info (codes "GfeVersion")) app_id ri_key
                    (make_ri_key_id four) in
                starts si c cfg _ w5 (make_ri_key_id four) a5 bounds refl
                  ((==_iff (length ri_key) 16).0 whole) (make_ri_key_id_bound four) refl p refl refl
    where
      drawn : (v : World) → Going v → Going (record v { network = (draw v.network).1 })
      drawn v g = unfold on_network in Follows-draw wanted start_world v g

  Does-client_start : Does (λ v u. Started u) Unharmed (client_start extra_query params) start_world
  unfolding client_start
  Does-client_start =
      Does-bind (fresh (Does-checked_settings start_world (Untouched_refl wanted start_world)))
        λ s w1 (bounds, f1).
          Does-then (fresh (Does-require (not (is_empty wanted)) _ _ f1)) λ w2 (_, f2).
            Does-then
              (fresh (Does-require (not (is_empty (get_str params (codes "app") []))) _ _ f2))
              λ w3 (_, f3).
                Does-bind (loose (Does-connect_paired_host wanted start_world w3 f3))
                  λ c w4 (b, f4).
                    Does-bind
                      (going (Does-ask wanted start_world c (codes "serverinfo") [] w4 b f4))
                      λ info w5 f5.
                        Does-then (going (Does-require (is_serverinfo info) _ _ f5)) λ w6 (_, f6).
                          Does-bind
                            (going (Does-choose_app c (get_str params (codes "app") []) w6 b f6))
                            λ id w7 (p, f7). Does-launch_app s info c id w7 bounds b p f7

  -- When client.start refuses, the program has ended, or the registry of hosts and the session are
  -- those of before, and there was either no request, or first the serverinfo over plain HTTP to the
  -- wanted host and then only requests to it, which is paired, over HTTPS with the certificate pinned
  -- that the registry holds.
  pub client_start-refuses :
      (code message : Bytes)
      → (client_start extra_query params start_world).0 ≡ refuses code message
      → Unharmed (client_start extra_query params start_world).1
  client_start-refuses code message h = Post-refuses code message Does-client_start.behind h
