-- ===== src/Client/Methods/Channel.antt =====
-- The requests of a handler for a paired host, and what it leaves alone.
use arcade_launcher_stream_e.Client.Methods.{
  find_paired, load_identity, learn_port, connect_paired_host, new_client, xml_text,
  load_or_create_identity, with_pinned_cert, default_http_port, default_https_port, is_serverinfo,
  apps_of, fetch_through, fetched, M,
}
use arcade_launcher_stream_e.Client.World.Rules.{
  Does, Does-network, Does-needed, Post-weaken, Does-bind, Does-then, Does-require, given,
  Does-mono,
}
use arcade_launcher_stream_e.Net.Identity.{IdentityFiles}
use arcade_launcher_stream_e.Net.HttpClient.{HttpClient, new_client}
use arcade_launcher_stream_e.Client.World.{World, on_network}
use arcade_launcher_stream_e.Net.Network.{Request, ask, draw, request_of, fetch_through}
use arcade_launcher_stream_e.Json.Floats.{Floats}
use arcade_launcher_stream_e.Net.Store.{PairedHost, find_host}
use arcade_launcher_stream_e.Base.{
  Bytes, codes, Bool, true, false, ◌&&◌, List, [], ◌∷◌, ◌++◌, Option, none, some, ◌≡◌, refl, sym,
  ap, ◌∙◌, inl, inr, arith, append_assoc, Bool-cases, bytes_eq, bytes_eq_refl, atoi, above, subst,
  ◌⊎◌,
}

-- A request over HTTPS to the host that is paired, with its certificate pinned
unfoldable pub is_pinned : Option PairedHost → Bytes → Request → Bool
is_pinned none host r = false
is_pinned (some entry) host r =
    bytes_eq r.host host && r.https && bytes_eq r.pinned entry.server_cert_pem

unfoldable pub are_pinned : Option PairedHost → Bytes → List Request → Bool
unfolding is_pinned
are_pinned entry host [] = true
are_pinned entry host (r ∷ rs) = is_pinned entry host r && are_pinned entry host rs

-- The one request over plain HTTP: the serverinfo that tells whether the host is there
pub record Probe (host : Bytes) (r : Request) : Type 0 where
  pub to_host : r.host ≡ host
  pub plain : r.https ≡ false
  pub serverinfo : r.command ≡ codes "serverinfo"
  pub no_args : r.args ≡ []

are_pinned-append :
    (entry : Option PairedHost) (host : Bytes) (rs : List Request) (r : Request)
    → are_pinned entry host rs ≡ true
    → is_pinned entry host r ≡ true
    → are_pinned entry host (rs ++ (r ∷ [])) ≡ true
unfolding are_pinned
are_pinned-append entry host [] r h k = rw k
are_pinned-append entry host (q ∷ rs) r h k = ground (arith, are_pinned-append entry host rs r)

module _ ⦃fl : Floats⦄ (host : Bytes) (start : World) where
  -- From `start` on, a handler has made no request, and has touched neither the registry nor the
  -- session.
  pub record Untouched (w : World) : Type 0 where
    pub same_hosts : w.hosts_file ≡ start.hosts_file
    pub same_session : w.session ≡ start.session
    pub same_ended : w.ended ≡ start.ended
    pub none_new : w.network.requests ≡ start.network.requests

  -- From `start` on, a handler has asked for the serverinfo over plain HTTP, and all its other
  -- requests went to `host` over HTTPS, with its certificate pinned; and it has touched neither the
  -- registry nor the session.
  pub record Follows (w : World) : Type 0 where
    pub same_hosts : w.hosts_file ≡ start.hosts_file
    pub same_session : w.session ≡ start.session
    pub same_ended : w.ended ≡ start.ended
    pub probe : Request
    pub probes : Probe host probe
    pub new : List Request
    pub appended : w.network.requests ≡ start.network.requests ++ (probe ∷ new)
    pub secured : are_pinned (find_host host start.hosts_file) host new ≡ true

  -- A client of the paired host, with its certificate pinned
  pub record Bound (c : HttpClient) : Type 0 where
    pub entry : PairedHost
    pub found : find_host host start.hosts_file ≡ some entry
    pub same_host : c.host ≡ host
    pub pinned : c.pinned_server_cert ≡ entry.server_cert_pem

  pub Untouched_refl : Untouched start
  Untouched_refl = record {
    same_hosts = refl;
    same_session = refl;
    same_ended = refl;
    none_new = refl;
  }

  request-is_pinned :
      (c : HttpClient) (command args : Bytes)
      → Bound c
      → is_pinned (find_host host start.hosts_file) host (request_of true c command args) ≡ true
  unfolding is_pinned
  request-is_pinned c command args b =
      rw (b.found, b.same_host, b.pinned, bytes_eq_refl host, bytes_eq_refl b.entry.server_cert_pem)
        refl

  pub Follows-ask :
      (c : HttpClient) (command args : Bytes) (w : World)
      → Bound c
      → Follows w
      → Follows (on_network (ask true c command args) w).1
  unfolding ask on_network
  Follows-ask c command args w b f = record {
    same_hosts = f.same_hosts;
    same_session = f.same_session;
    same_ended = f.same_ended;
    probe = f.probe;
    probes = f.probes;
    new = f.new ++ (request_of true c command args ∷ []);
    appended =
        ap (λ l. l ++ (request_of true c command args ∷ [])) f.appended
        ∙ append_assoc start.network.requests (f.probe ∷ f.new) _;
    secured =
        are_pinned-append (find_host host start.hosts_file) host f.new
          (request_of true c command args) f.secured (request-is_pinned c command args b);
  }

  pub Follows-draw : (w : World) → Follows w → Follows (on_network draw w).1
  unfolding draw on_network
  Follows-draw w f = record {
    same_hosts = f.same_hosts;
    same_session = f.same_session;
    same_ended = f.same_ended;
    probe = f.probe;
    probes = f.probes;
    new = f.new;
    appended = f.appended;
    secured = f.secured;
  }

  Untouched-files :
      (w : World) (files : IdentityFiles)
      → Untouched w
      → Untouched (record w { identity_files = files })
  Untouched-files w files f = record {
    same_hosts = f.same_hosts;
    same_session = f.same_session;
    same_ended = f.same_ended;
    none_new = f.none_new;
  }

  -- The request that the handler starts with
  Follows-probe :
      (c : HttpClient) (w : World)
      → Bound c
      → Untouched w
      → Follows (on_network (ask false c (codes "serverinfo") []) w).1
  unfolding ask on_network are_pinned
  Follows-probe c w b f = record {
    same_hosts = f.same_hosts;
    same_session = f.same_session;
    same_ended = f.same_ended;
    probe = request_of false c (codes "serverinfo") [];
    probes = record { to_host = b.same_host; plain = refl; serverinfo = refl; no_args = refl };
    new = [];
    appended = ap (λ l. l ++ (request_of false c (codes "serverinfo") [] ∷ [])) f.none_new;
    secured = refl;
  }

  -- One request to the paired host
  pub Does-ask :
      (c : HttpClient) (command args : Bytes) (w : World)
      → Bound c
      → Follows w
      → Does (λ (reply : Bytes) v. Follows v) Follows (on_network (ask true c command args)) w
  unfolding on_network
  Does-ask c command args w b f =
      Does-network (ask true c command args) w (Follows-ask c command args w b f)

  Does-find_paired :
      (w : World)
      → Untouched w
      → Does
          (λ entry v. (find_host host start.hosts_file ≡ some entry) × Untouched v)
          Untouched
          (find_paired host)
          w
  unfolding find_paired
  Does-find_paired w f =
      subst (λ o. Does (λ entry v. (o ≡ some entry) × Untouched v) Untouched (find_paired host) w)
        (ap (λ file. find_host host file) f.same_hosts)
        (record { behind = (Does-needed _ _ (find_host host w.hosts_file) f).behind })

  Does-load_identity :
      (code message : Bytes) (w : World)
      → Untouched w
      → Does (λ who v. Untouched v) Untouched (load_identity code message) w
  unfolding load_identity
  Does-load_identity code message w f =
      let (loaded, files) =
        load_or_create_identity w.fresh_identity w.fresh_unique_id w.identity_files in
      record {
        behind =
            Post-weaken (λ who v j. j.1)
              (Does-needed code message loaded (Untouched-files w files f)).behind;
      }

  learn_port-Bound : (info : Bytes) (c : HttpClient) → Bound c → Bound (learn_port info c)
  unfolding learn_port
  learn_port-Bound info c b =
      elim (Bool-cases (above (atoi (xml_text info (codes "HttpsPort"))) 0)) [
        | inl h ↦ rw h (record {
          entry = b.entry;
          found = b.found;
          same_host = b.same_host;
          pinned = b.pinned;
        })
        | inr h ↦ rw h b
      ]

  -- No request, or the probe and pinned requests
  abbrev pub Careful : World → Type 0
  Careful w = Untouched w ⊎ Follows w

  pub untouched :
      {A : Type 0} {J : A → World → Type 0} {m : M A} {w : World}
      → Does J Untouched m w
      → Does J Careful m w
  untouched done = Does-mono (λ a v j. j) (λ v k. inl k) done

  pub followed :
      {A : Type 0} {J : A → World → Type 0} {m : M A} {w : World}
      → Does J Follows m w
      → Does J Careful m w
  followed done = Does-mono (λ a v j. j) (λ v k. inr k) done

  -- A client that `connect_paired_host` gives is bound to the host.
  pub Does-connect_paired_host :
      (w : World)
      → Untouched w
      → Does (λ c v. Bound c × Follows v) Careful (connect_paired_host host) w
  unfolding connect_paired_host new_client on_network
  Does-connect_paired_host w f =
      Does-bind (untouched (Does-find_paired w f)) λ entry w1 (found, f1).
        Does-bind (untouched (Does-load_identity _ _ w1 f1)) λ who w2 f2.
          let c =
            with_pinned_cert entry.server_cert_pem
              (new_client host default_http_port default_https_port who.0 who.1) in
          let b : Bound c = record {
            entry = entry;
            found = found;
            same_host = refl;
            pinned = refl;
          } in
          Does-bind
            (followed (
              Does-network {J = λ info v. Follows v} (ask false c (codes "serverinfo") []) w2
                (Follows-probe c w2 b f2)))
            λ info w3 f3.
              Does-then (followed (Does-require (is_serverinfo info) _ _ f3))
                λ w4 (_, f4). record { behind = given (learn_port-Bound info c b, f4) }

  -- The apps are those that a call of `fetch_app_list` through the client gave.
  pub Does-apps_of :
      (c : HttpClient) (message : Bytes) (w : World)
      → Bound c
      → Follows w
      → Does
          (λ apps v. (fetched (fetch_through c w.network).0 ≡ some apps) × Follows v)
          Follows
          (apps_of c message)
          w
  unfolding apps_of fetch_through
  Does-apps_of c message w b f =
      Does-bind
        (Does-network {J = λ apps v. (apps ≡ (fetch_through c w.network).0) × Follows v}
          (fetch_through c) w
          (refl, (unfold on_network in Follows-ask c (codes "applist") [] w b f)))
        λ apps v (same, g).
          Does-mono (λ a u j. (ap (λ r. fetched r) (sym same) ∙ j.0, j.1)) (λ u k. k)
            (Does-needed (codes "host_unreachable") message (fetched apps) g)

  pub Follows-ask_new :
      (c : HttpClient) (command args : Bytes) (w : World) (b : Bound c) (f : Follows w)
      → ((Follows-ask c command args w b f).new ≡ f.new ++ (request_of true c command args ∷ []))
        × ((Follows-ask c command args w b f).probe ≡ f.probe)
  unfolding Follows-ask
  Follows-ask_new c command args w b f = (refl, refl)
