-- ===== src/Client/Methods/Pairing.antt =====
-- What client.pair has shown of a host when it answers that the host is paired.
use arcade_launcher_stream_e.Net.Network.Paired.{requests_of}
use arcade_launcher_stream_e.Client.Methods.Registry.{Stored}
use arcade_launcher_stream_e.Net.Pairing.Outcome.{is_gen7}
use arcade_launcher_stream_e.Net.Pairing.Trace.{Proven}
use arcade_launcher_stream_e.Net.Network.{Network, pair_with_client, request_of, ask}
use arcade_launcher_stream_e.Net.Pairing.Runs.{Event, Runs}
use arcade_launcher_stream_e.Client.Methods.{
  get_str, pair_with_client, load_or_create_identity, ask, new_client, major_version, xml_text,
  learn_port, HttpClient,
}
use arcade_launcher_stream_e.Net.Pairing.{ClientIdentity, PairResult, nv_pair}
use arcade_launcher_stream_e.Net.Store.{PairedHost}
use arcade_launcher_stream_e.Client.World.{World}
use arcade_launcher_stream_e.Json.{Value}
use arcade_launcher_stream_e.Net.PairingCrypto.{OpenSsl}
use arcade_launcher_stream_e.Json.Floats.{Floats, Ieee}
use arcade_launcher_stream_e.Base.{Bytes, codes, true, false, List, [], some, ◌≡◌, ◌++◌, pos, ◌∷◌}

module _ ⦃fl : Floats⦄ (laws : Ieee fl) (ssl : OpenSsl) (params : Value) (w : World) where
  -- the host in the parameters, with a certificate
  abbrev pub paired_host : Bytes → PairedHost
  paired_host cert = record {
    address = get_str params (codes "host") [];
    name = get_str params (codes "name") [];
    server_cert_pem = cert;
  }

  -- A client of the host at the default ports, with no certificate pinned yet
  abbrev pub fresh_client : ClientIdentity → Bytes → HttpClient
  fresh_client identity unique_id =
      new_client (get_str params (codes "host") []) (pos 47989) (pos 47984) identity unique_id

  -- The stored or new identity was used. The first request was the serverinfo over plain HTTP, with
  -- the reply `info`, and all others are those of the events, made by the client with the port that
  -- the reply names. These events are a pairing for the generation in the reply, that has run to its
  -- end: the server has proven that it knows the PIN and has the key of the certificate. The host is
  -- in the registry with that certificate if the file can be written.
  pub record Paired (u : World) : Type 0 where
    pub identity : ClientIdentity
    pub unique_id : Bytes
    pub loaded :
        (load_or_create_identity w.fresh_identity w.fresh_unique_id w.identity_files).0
        ≡ some (identity, unique_id)
    pub info : Bytes
    pub replied :
        info ≡ (ask false (fresh_client identity unique_id) (codes "serverinfo") [] w.network).0
    pub events : List Event
    pub requested :
        u.network.requests
        ≡ w.network.requests
          ++ (request_of false (fresh_client identity unique_id) (codes "serverinfo") []
              ∷ requests_of events (learn_port info (fresh_client identity unique_id)))
    pub cert : Bytes
    pub proven :
        Proven ssl identity
          (is_gen7 (major_version (xml_text info (codes "appversion"))))
          (get_str params (codes "pin") [])
          events
          cert
    pub registered : w.can_write_hosts ≡ true → Stored laws (paired_host cert) w u

  -- Nothing was stored yet.
  pub record Untouched (u : World) : Type 0 where
    pub same_hosts : u.hosts_file ≡ w.hosts_file
    pub same_session : u.session ≡ w.session
    pub same_writes : u.can_write_hosts ≡ w.can_write_hosts

  -- The identity was loaded, and nothing sent yet.
  record Loaded (who : ClientIdentity × Bytes) (u : World) : Type 0 where
    kept : Untouched u
    gave :
        (load_or_create_identity w.fresh_identity w.fresh_unique_id w.identity_files).0 ≡ some who
    same_network : u.network ≡ w.network

  -- The state behind the run of the pairing
  record Ran (r : PairResult) (u : World) : Type 0 where
    kept : Untouched u
    identity : ClientIdentity
    unique_id : Bytes
    gave :
        (load_or_create_identity w.fresh_identity w.fresh_unique_id w.identity_files).0
        ≡ some (identity, unique_id)
    info : Bytes
    replied :
        info ≡ (ask false (fresh_client identity unique_id) (codes "serverinfo") [] w.network).0
    events : List Event
    requested :
        u.network.requests
        ≡ w.network.requests
          ++ (request_of false (fresh_client identity unique_id) (codes "serverinfo") []
              ∷ requests_of events (learn_port info (fresh_client identity unique_id)))
    run :
        Runs
          (nv_pair ssl identity
            (get_str params (codes "pin") [])
            (major_version (xml_text info (codes "appversion"))))
          events
          r
