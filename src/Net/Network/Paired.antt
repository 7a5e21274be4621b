-- ===== src/Net/Network/Paired.antt =====
-- A flow that is driven through a client is a run of the flow.
use arcade_launcher_stream_e.Net.HttpClient.{with_pinned_cert}
use arcade_launcher_stream_e.Base.{
  List, [], ◌∷◌, ◌++◌, if◌then◌else◌, ◌≡◌, sym, ◌∙◌, append_assoc, append-nil,
}
use arcade_launcher_stream_e.Net.Pairing.Runs.{
  Event, Runs, requested, pinned, drawn, returns, requests, pins, draws,
}
use arcade_launcher_stream_e.Net.Network.{
  ask, drive, draw, Flow, HttpClient, Network, done, transport, set_pinned_cert, with_pinned_cert,
  random, Request,
}

-- The events of the run
unfoldable pub events_of : Flow → HttpClient → Network → List Event
unfolding ask draw
events_of (done r) c net = []
events_of (transport https command args next) c net =
    let (reply, net') = ask https c command args net in
    requested https command args reply ∷ events_of (next reply) c net'
events_of (set_pinned_cert pem next) c net =
    pinned pem ∷ events_of next (with_pinned_cert pem c) net
events_of (random n next) c net =
    let (bytes, net') = draw net in drawn bytes ∷ events_of (next bytes) c net'

pub drive-Runs :
    (flow : Flow) (c : HttpClient) (net : Network)
    → Runs flow (events_of flow c net) (drive flow c net).0
unfolding drive events_of ask draw
drive-Runs (done r) c net = returns
drive-Runs (transport https command args next) c net =
    let (reply, net') = ask https c command args net in
    requests reply (drive-Runs (next reply) c net')
drive-Runs (set_pinned_cert pem next) c net = pins (drive-Runs next (with_pinned_cert pem c) net)
drive-Runs (random n next) c net =
    let (bytes, net') = draw net in draws bytes (drive-Runs (next bytes) c net')

-- The requests that a client makes in these events: to its host, at the port for HTTPS or HTTP, with
-- the certificate that was pinned last.
unfoldable pub requests_of : List Event → HttpClient → List Request
requests_of [] c = []
requests_of (requested https command args reply ∷ events) c =
    record {
      https = https;
      host = c.host;
      port = if https then c.https_port else c.http_port;
      pinned = c.pinned_server_cert;
      command = command;
      args = args;
    }
    ∷ requests_of events c
requests_of (pinned pem ∷ events) c = requests_of events (record c { pinned_server_cert = pem })
requests_of (drawn bytes ∷ events) c = requests_of events c

pub drive-requests_of :
    (flow : Flow) (c : HttpClient) (net : Network)
    → (drive flow c net).2.requests ≡ net.requests ++ requests_of (events_of flow c net) c
unfolding drive events_of requests_of ask draw
drive-requests_of (done r) c net = sym (append-nil net.requests)
drive-requests_of (transport https command args next) c net =
    let (reply, net') = ask https c command args net in
    drive-requests_of (next reply) c net' ∙ append_assoc net.requests _ _
drive-requests_of (set_pinned_cert pem next) c net =
    drive-requests_of next (with_pinned_cert pem c) net
drive-requests_of (random n next) c net =
    let (bytes, net') = draw net in drive-requests_of (next bytes) c net'
