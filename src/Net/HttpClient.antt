-- ===== src/Net/HttpClient.antt =====
-- `NvHttpClient` of src/net/http_client.cpp: the request, the loops over a socket, and the pinning of
-- the server's certificate. What the system and OpenSSL answer in one request is an `Exchange`.
use arcade_launcher_stream_e.Base.Result.{Result, ok, ◌>>=◌}
use arcade_launcher_stream_e.Net.Http.{
  build_request_target, crlf, HttpResponse, parse_http_response,
}
use arcade_launcher_stream_e.Net.Hex.{to_hex}
use arcade_launcher_stream_e.Net.Pairing.{ClientIdentity}
use arcade_launcher_stream_e.Base.{
  ℕ, Bytes, codes, Bool, true, false, not, ◌&&◌, List, [], ◌∷◌, ◌++◌, if◌then◌else◌, Option, none,
  some, bytes_eq, is_empty, ℤ, to_string_ℤ, below, drop, magnitude, take,
}
pub mod Wire
pub mod Pinned

-- The members of the class.
pub record HttpClient : Type 0 where
  pub host : Bytes
  pub http_port : ℤ
  pub https_port : ℤ
  pub identity : ClientIdentity
  pub unique_id : Bytes
  pub pinned_server_cert : Bytes

-- The constructor; the pinned certificate starts empty.
unfoldable pub new_client : Bytes → ℤ → ℤ → ClientIdentity → Bytes → HttpClient
new_client host http_port https_port identity unique_id = record {
  host = host;
  http_port = http_port;
  https_port = https_port;
  identity = identity;
  unique_id = unique_id;
  pinned_server_cert = [];
}

abbrev pub with_pinned_cert : Bytes → HttpClient → HttpClient
with_pinned_cert pem c = record c { pinned_server_cert = pem }

abbrev pub with_https_port : ℤ → HttpClient → HttpClient
with_https_port port c = record c { https_port = port }

-- `random_uuid_hex`: the 16 bytes of `RAND_bytes`, or a failure
unfoldable pub random_uuid_hex : Option Bytes → Bytes
random_uuid_hex none = codes "00000000000000000000000000000000"
random_uuid_hex (some b) = to_hex b

-- n <= 0
abbrev pub nothing : ℤ → Bool
nothing z = below z 1

-- The loop of `send_all` and of `send_all_ssl` over the answers of the calls: whether all was sent,
-- and the bytes that went out. Where the list of answers ends, the next call fails.
unfoldable pub send_all : List ℤ → Bytes → Bool × Bytes
send_all answers [] = (true, [])
send_all [] (c ∷ s) = (false, [])
send_all (n ∷ answers) (c ∷ s) =
    let (all, out) = send_all answers (drop (magnitude n) (c ∷ s)) in
    if nothing n then (false, []) else (all, take (magnitude n) (c ∷ s) ++ out)

-- The loop of `recv_all_plain` and of `recv_all_ssl` over the bytes that each call gives, at most
-- 4096; an empty text stands for the end and for an error.
unfoldable pub recv_all : List Bytes → Bytes
recv_all [] = []
recv_all (chunk ∷ chunks) = if is_empty chunk then [] else chunk ++ recv_all chunks

-- The answers of the system and of OpenSSL in one request: the random bytes, whether the name
-- is resolved, for each address whether there is a socket and it connects, whether there is a context and an SSL object, whether `SSL_connect` succeeds, the peer's
-- certificate in DER, and the answers of the calls that write and read.
pub record Exchange : Type 0 where
  pub random : Option Bytes
  pub resolves : Bool
  pub attempts : List (Bool × Bool)
  pub has_context : Bool
  pub has_ssl : Bool
  pub shakes_hands : Bool
  pub peer_cert : Option Bytes
  pub sends : List ℤ
  pub receives : List Bytes

-- The loop of `tcp_connect` over the addresses
unfoldable pub first_socket : List (Bool × Bool) → Bool
first_socket [] = false
first_socket ((opens, connects) ∷ more) = if opens && connects then true else first_socket more

-- `tcp_connect`: whether it gives a socket
unfoldable pub tcp_connect : Exchange → Bool
unfolding first_socket
tcp_connect x = x.resolves && first_socket x.attempts

unfoldable pub request_text : HttpClient → ℤ → Bytes → Bytes → Option Bytes → Bytes
unfolding build_request_target random_uuid_hex
request_text c port command args random =
    codes "GET "
    ++ (build_request_target command c.unique_id (random_uuid_hex random) args
        ++ (codes " HTTP/1.1"
            ++ (crlf
                ++ (codes "Host: "
                    ++ (c.host
                        ++ (codes ":"
                            ++ (to_string_ℤ port
                                ++ (crlf ++ (codes "Connection: close" ++ (crlf ++ crlf))))))))))

-- `X509_cmp` of two certificates that were read
unfoldable pub same_cert : Option Bytes → Option Bytes → Bool
same_cert (some a) (some b) = bytes_eq a b
same_cert _ _ = false

module _ (read_pem : Bytes → Option Bytes) where
  -- `read_pem_cert`; `read_pem` is that of OpenSSL
  unfoldable pub read_pem_cert : Bytes → Option Bytes
  read_pem_cert pem = if is_empty pem then none else read_pem pem

  -- `tlsOk`
  unfoldable pub tls_ok : HttpClient → Exchange → Bool
  unfolding same_cert read_pem_cert
  tls_ok c x =
      x.has_context
      && x.has_ssl
      && x.shakes_hands
      && same_cert x.peer_cert (read_pem_cert c.pinned_server_cert)

  -- Whether the socket, or the connection over it, may carry the request.
  unfoldable pub is_open : Bool → HttpClient → Exchange → Bool
  unfolding tls_ok
  is_open https c x = if https then tls_ok c x else true

  -- What was sent, and the text that came back.
  unfoldable pub exchange : Bool → HttpClient → Bytes → Exchange → Bytes × Bytes
  unfolding is_open
  exchange https c text x =
      let (all, out) = send_all x.sends text in
      if not (tcp_connect x)
      then ([], [])
      else if not (is_open https c x)
      then ([], [])
      else (out, if all then recv_all x.receives else [])

  abbrev pub body_of : Result HttpResponse → Result Bytes
  body_of r = r >>= λ resp. ok (if resp.is_ok then resp.body else [])

  -- `request`: what was sent, and the result. The fuel is for the chunks of the body.
  unfoldable pub request :
      ℕ → Bool → HttpClient → ℤ → Bytes → Bytes → Exchange → Bytes × Result Bytes
  unfolding exchange
  request fuel https c port command args x =
      let (out, raw) = exchange https c (request_text c port command args x.random) x in
      (out, if not (tcp_connect x) then ok [] else body_of (parse_http_response fuel raw))

  unfoldable pub get_http : ℕ → HttpClient → Bytes → Bytes → Exchange → Bytes × Result Bytes
  unfolding request
  get_http fuel c command args x = request fuel false c c.http_port command args x

  unfoldable pub get_https : ℕ → HttpClient → Bytes → Bytes → Exchange → Bytes × Result Bytes
  unfolding request
  get_https fuel c command args x = request fuel true c c.https_port command args x
