-- ===== src/Client/Methods.antt =====
-- The handlers of client mode, src/client/stream_main.cpp, in the build with OpenSSL and the streaming
-- library. The arguments of a section are OpenSSL, and the query that the library adds.
pub mod Channel
pub mod Registry
pub mod Pairing
use arcade_launcher_stream_e.Net.Hex.{to_hex}
use arcade_launcher_stream_e.Ipc.Server.{empty_object}
use arcade_launcher_stream_e.Net.PairingCrypto.{OpenSsl}
use arcade_launcher_stream_e.Net.AppList.{AppInfo}
use arcade_launcher_stream_e.Base.Result.{Result, ok, failed, out_of_fuel}
use arcade_launcher_stream_e.Json.{Value, Items, set, no_items, get_str, item, str, arr, num, bool}
use arcade_launcher_stream_e.Net.Identity.{load_or_create_identity}
use arcade_launcher_stream_e.Net.Network.{ask, fetch_through, pair_with_client}
use arcade_launcher_stream_e.Net.Store.{PairedHost, find_host, upsert_host, read_hosts}
use arcade_launcher_stream_e.Net.Pairing.{
  ClientIdentity, PairState, paired, pin_wrong, already_in_progress,
}
use arcade_launcher_stream_e.Json.Floats.{Floats}
use arcade_launcher_stream_e.Client.World.{
  ◌>>=◌, ◌>>◌, M, refuse, yields, gives, on_network, require, needed,
}
use arcade_launcher_stream_e.Net.HttpClient.{
  HttpClient, with_https_port, with_pinned_cert, new_client,
}
use arcade_launcher_stream_e.Net.Xml.{xml_attr, xml_text}
use arcade_launcher_stream_e.Base.{
  Bytes, codes, Bool, true, false, not, ◌&&◌, ◌||◌, List, [], ◌∷◌, ◌++◌, if◌then◌else◌, Option,
  none, some, bytes_eq, is_empty, ℤ, pos, atoi, above,
}

-- `major_version`
unfoldable pub major_version : Bytes → ℤ
major_version version = if is_empty version then pos 0 else atoi version

abbrev pub default_http_port : ℤ
default_http_port = pos 47989

abbrev pub default_https_port : ℤ
default_https_port = pos 47984

-- (0x3 << 16) | 2
abbrev pub stereo_surround_info : ℤ
stereo_surround_info = pos 196610

-- The test on the answer to a serverinfo request
unfoldable pub is_serverinfo : Bytes → Bool
is_serverinfo info =
    not (is_empty info)
    && bytes_eq (xml_attr info (codes "root") (codes "status_code")) (codes "200")

-- The port in the answer, if it is positive
unfoldable pub learn_port : Bytes → HttpClient → HttpClient
learn_port info c =
    let port = atoi (xml_text info (codes "HttpsPort")) in
    if above port 0 then with_https_port port c else c

-- `load_or_create_identity`, with the error of the caller
unfoldable pub load_identity : Bytes → Bytes → M (ClientIdentity × Bytes)
load_identity code message w =
    let (loaded, files) =
      load_or_create_identity w.fresh_identity w.fresh_unique_id w.identity_files in
    needed code message loaded (record w { identity_files = files })

-- A write of the file, which may fail
abbrev pub put_text : Bool → Bytes → M Bool
put_text true text w = (gives true, record w { hosts_file = some text })
put_text false text w = (gives false, w)

-- The new text of the file, if there is one
unfoldable pub put_file : Option Bytes → M Bool
put_file none w = (gives false, w)
put_file (some text) w = put_text w.can_write_hosts text w

module _ ⦃fl : Floats⦄ where
  unfoldable pub find_paired : Bytes → M PairedHost
  find_paired host w =
      needed (codes "not_paired")
        (codes "host '" ++ (host ++ codes "' is not paired; run client.pair first"))
        (find_host host w.hosts_file) w

  -- `upsert_host` of the store, and whether it succeeds. The write is all or nothing: the fallback of
  -- `write_file`, which removes the file when a rename fails and may then lose it, and an error that shows
  -- only when the file is closed are not modelled.
  unfoldable pub store_host : PairedHost → M Bool
  store_host host w = put_file (upsert_host host w.hosts_file) w

  unfoldable pub connect_paired_host : Bytes → M HttpClient
  unfolding find_paired load_identity ask
  connect_paired_host host = do
    entry ← find_paired host
    who ← load_identity (codes "internal") (codes "could not load the persistent client identity")
    let c =
        with_pinned_cert entry.server_cert_pem
          (new_client host default_http_port default_https_port who.0 who.1)
    info ← on_network (ask false c (codes "serverinfo") [])
    require (is_serverinfo info) (codes "host_unreachable") (
        codes "no serverinfo from "
        ++ (host ++ codes " (is the host awake and GameStream/Sunshine running?)"))
    yields (learn_port info c)

  -- client.hosts
  abbrev pub host_entry : PairedHost → Value
  host_entry h =
      set
        (set (set (set empty_object (codes "name") (str h.name)) (codes "address") (str h.address))
          (codes "paired") (bool true))
        (codes "state") (str (codes "idle"))

  abbrev pub host_entries : List PairedHost → Items
  host_entries [] = no_items
  host_entries (h ∷ hosts) = item (host_entry h) (host_entries hosts)

  unfoldable pub client_hosts : Value → M Value
  client_hosts params w =
      (gives (set empty_object (codes "hosts") (arr (host_entries (read_hosts w.hosts_file)))), w)

  -- What `fetch_app_list` leaves: the apps, or an error text. The model's list parser never runs out
  -- of fuel.
  abbrev pub fetched : Result (List AppInfo) → Option (List AppInfo)
  fetched (ok apps) = some apps
  fetched failed = none
  fetched out_of_fuel = none

  abbrev pub fetch_error : Bytes
  fetch_error = codes "host returned no status-200 applist response"

  -- The apps of a host, with the message in case of an error
  unfoldable pub apps_of : HttpClient → Bytes → M (List AppInfo)
  unfolding fetch_through
  apps_of c message = do
    apps ← on_network (fetch_through c)
    needed (codes "host_unreachable") message (fetched apps)

  abbrev pub app_entry : AppInfo → Value
  app_entry a =
      set (set (set empty_object (codes "id") (num (fl.of_ℤ a.id))) (codes "name") (str a.title))
        (codes "hdrSupported") (bool a.hdr_supported)

  abbrev pub app_entries : List AppInfo → Items
  app_entries [] = no_items
  app_entries (a ∷ apps) = item (app_entry a) (app_entries apps)

  -- client.apps
  unfoldable pub client_apps : Value → M Value
  unfolding connect_paired_host apps_of
  client_apps params = do
    let host = get_str params (codes "host") []
    require (not (is_empty host)) (codes "bad_params")
        (codes "client.apps requires a non-empty string 'host'")
    c ← connect_paired_host host
    apps ← apps_of c (
        codes "could not fetch the app list from "
        ++ (host ++ (codes " (" ++ (fetch_error ++ codes ")"))))
    yields (set empty_object (codes "apps") (arr (app_entries apps)))

  -- client.identity
  unfoldable pub client_identity : Value → M Value
  unfolding load_identity
  client_identity params = do
    who ←
        load_identity (codes "internal")
          (codes "could not load or generate the persistent client identity")
    yields (
        set (set empty_object (codes "clientCertPem") (str who.0.cert_pem)) (codes "uniqueId")
          (str who.1))

  -- client.trustHost
  unfoldable pub trust_host : Value → M Value
  unfolding store_host
  trust_host params = do
    let host = get_str params (codes "host") []
    let cert = get_str params (codes "serverCertPem") []
    require (not (is_empty host || is_empty cert)) (codes "bad_params")
        (codes "client.trustHost requires non-empty 'host' and 'serverCertPem'")
    stored ←
        store_host (record {
          address = host;
          name = get_str params (codes "name") [];
          server_cert_pem = cert;
        })
    require stored (codes "internal") (codes "could not persist the pinned host cert")
    yields (set empty_object (codes "trusted") (bool true))

  -- The answer of client.pair to the result of the pairing; the store may fail without an error.
  unfoldable pub paired_answer : Bytes → Bytes → PairState → Bytes → M Value
  unfolding store_host
  paired_answer host name paired cert = do
    stored ← store_host (record { address = host; name = name; server_cert_pem = cert })
    yields (
        set (set empty_object (codes "paired") (bool true)) (codes "serverCert")
          (str (to_hex cert)))
  paired_answer host name pin_wrong cert =
      refuse (codes "pin_wrong") (codes "the PIN entered did not match")
  paired_answer host name already_in_progress cert =
      refuse (codes "already_pairing") (codes "the host is already pairing with another client")
  paired_answer host name PairState.failed cert =
      refuse (codes "pairing_failed") (codes "pairing handshake failed")

  -- client.pair
  unfoldable pub client_pair : OpenSsl → Value → M Value
  unfolding load_identity paired_answer pair_with_client
  client_pair ssl params = do
    let host = get_str params (codes "host") []
    let pin = get_str params (codes "pin") []
    require (not (is_empty host || is_empty pin)) (codes "bad_params")
        (codes "client.pair requires non-empty string 'host' and 'pin'")
    who ←
        load_identity (codes "pairing_failed")
          (codes "could not load or generate the persistent client identity")
    let c = new_client host default_http_port default_https_port who.0 who.1
    info ← on_network (ask false c (codes "serverinfo") [])
    require (is_serverinfo info) (codes "host_unreachable") (
        codes "no serverinfo response from "
        ++ (host ++ codes " (is GameStream/Sunshine running?)"))
    let gen = major_version (xml_text info (codes "appversion"))
    res ← on_network (λ net.
        let (r, _, net') = pair_with_client ssl who.0 pin gen (learn_port info c) net in (r, net'))
    paired_answer host (get_str params (codes "name") []) res.state res.server_cert_pem
