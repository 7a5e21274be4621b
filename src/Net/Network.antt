-- ===== src/Net/Network.antt =====
-- The calls of the other parts of src/net through a live client: `pair_with_client`, and the
-- overloads of `fetch_app_list` and `launch_or_resume` for `NvHttpClient`. What the requests return
-- and the random bytes are given in advance; every request is noted.
use arcade_launcher_stream_e.Net.AppList.{AppInfo, fetch_app_list}
use arcade_launcher_stream_e.Base.Result.{Result}
use arcade_launcher_stream_e.Net.Launch.{
  is_idle, LaunchConfig, LaunchResult, launch_args, read_answer,
}
use arcade_launcher_stream_e.Net.PairingCrypto.{OpenSsl}
use arcade_launcher_stream_e.Net.Pairing.{
  Flow, PairResult, ClientIdentity, done, nv_pair, transport, set_pinned_cert, random,
}
use arcade_launcher_stream_e.Net.HttpClient.{HttpClient, with_pinned_cert}
use arcade_launcher_stream_e.Base.{Bytes, codes, Bool, true, List, [], ◌∷◌, ◌++◌, if◌then◌else◌, ℤ}
pub mod Paired

-- A request: its channel and port, the certificate that was pinned for it, the command and arguments.
pub record Request : Type 0 where
  pub https : Bool
  pub host : Bytes
  pub port : ℤ
  pub pinned : Bytes
  pub command : Bytes
  pub args : Bytes

pub record Network : Type 0 where
  pub answers : List Bytes
  pub randoms : List Bytes
  pub requests : List Request

-- Past the end of the list a call fails with the empty text.
abbrev pub next_text : List Bytes → Bytes × List Bytes
next_text [] = ([], [])
next_text (s ∷ ss) = (s, ss)

abbrev pub port_for : Bool → HttpClient → ℤ
port_for https c = if https then c.https_port else c.http_port

abbrev pub request_of : Bool → HttpClient → Bytes → Bytes → Request
request_of https c command args = record {
  https = https;
  host = c.host;
  port = port_for https c;
  pinned = c.pinned_server_cert;
  command = command;
  args = args;
}

-- `get_https` and `get_http`
unfoldable pub ask : Bool → HttpClient → Bytes → Bytes → Network → Bytes × Network
ask https c command args net =
    let (reply, answers) = next_text net.answers in
    (
      reply,
      record net {
        answers = answers;
        requests = net.requests ++ (request_of https c command args ∷ []);
      },
    )

-- `random_bytes`
unfoldable pub draw : Network → Bytes × Network
draw net = let (bytes, randoms) = next_text net.randoms in (bytes, record net { randoms = randoms })

-- A pairing flow through the client.
unfoldable pub drive : Flow → HttpClient → Network → PairResult × HttpClient × Network
unfolding ask draw
drive (done r) c net = (r, c, net)
drive (transport https command args next) c net =
    let (reply, net') = ask https c command args net in drive (next reply) c net'
drive (set_pinned_cert pem next) c net = drive next (with_pinned_cert pem c) net
drive (random n next) c net = let (bytes, net') = draw net in drive (next bytes) c net'

unfoldable pub pair_with_client :
    OpenSsl → ClientIdentity → Bytes → ℤ → HttpClient → Network → PairResult × HttpClient × Network
unfolding drive
pair_with_client ssl identity pin version c net = drive (nv_pair ssl identity pin version) c net

unfoldable pub fetch_through : HttpClient → Network → Result (List AppInfo) × Network
unfolding ask
fetch_through c net =
    let (xml, net') = ask true c (codes "applist") [] net in (fetch_app_list xml, net')

unfoldable pub launch_verb : ℤ → Bytes
launch_verb current_game = if is_idle current_game then codes "launch" else codes "resume"

unfoldable pub launch_through : HttpClient → LaunchConfig → ℤ → Network → LaunchResult × Network
unfolding ask
launch_through c cfg current_game net =
    let verb = launch_verb current_game in
    let (resp, net') = ask true c verb (launch_args verb cfg) net in (read_answer verb resp, net')
