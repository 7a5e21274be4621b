-- ===== src/Net/HttpClient/Pinned.antt =====
-- What a request over HTTPS has checked, and what any request sends.
use arcade_launcher_stream_e.Net.HttpClient.Wire.{send_all-front}
use arcade_launcher_stream_e.Net.Http.{parse_http_response}
use arcade_launcher_stream_e.Net.HttpClient.{
  HttpClient, Exchange, same_cert, tls_ok, request, read_pem_cert, exchange, parse_http_response,
  is_open, ok, request_text, tcp_connect,
}
use arcade_launcher_stream_e.Base.{
  ℕ, Bytes, Bool, true, false, [], ◌++◌, Option, none, some, ◌≡◌, ◌≢◌, refl, sym, ap, inl, inr,
  arith, Bool-cases, bytes_eq_iff, is_empty, starts_with, ℤ,
}

same_cert-true :
    (a b : Option Bytes) → same_cert a b ≡ true → (der : Bytes) × (a ≡ some der) × (b ≡ some der)
unfolding same_cert
same_cert-true (some a) (some b) h = (a, refl, ap (λ d. some d) (sym ((bytes_eq_iff a b).0 h)))
same_cert-true none b h = absurd (cc h)
same_cert-true (some a) none h = absurd (cc h)

module _ (read_pem : Bytes → Option Bytes) (c : HttpClient) (x : Exchange) where
  -- A certificate that the peer has, and that was pinned.
  pub record Pinned : Type 0 where
    pub der : Bytes
    pub peer : x.peer_cert ≡ some der
    pub pinned : read_pem c.pinned_server_cert ≡ some der
    pub named : is_empty c.pinned_server_cert ≡ false

  tls_ok-Pinned : tls_ok read_pem c x ≡ true → Pinned
  unfolding tls_ok read_pem_cert
  tls_ok-Pinned h =
      let same : same_cert x.peer_cert (read_pem_cert read_pem c.pinned_server_cert) ≡ true =
        ground arith in
      let (der, peer, read) = same_cert-true x.peer_cert _ same in
      record { der = der; peer = peer; pinned = ground arith; named = ground arith }

  closed :
      (fuel : ℕ) (port : ℤ) (command args : Bytes)
      → tls_ok read_pem c x ≡ false
      → request read_pem fuel true c port command args x ≡ ([], ok [])
  unfolding request exchange parse_http_response starts_with is_open
  closed fuel port command args h = ground (arith, h)

  -- If a request over HTTPS sends anything, or returns anything but the empty text, then a
  -- certificate was pinned, the peer has shown one, and both are the same, byte for byte.
  pub request-Pinned :
      (fuel : ℕ) (port : ℤ) (command args : Bytes)
      → request read_pem fuel true c port command args x ≢ ([], ok [])
      → Pinned
  request-Pinned fuel port command args h = elim (Bool-cases (tls_ok read_pem c x)) [
    | inl q ↦ tls_ok-Pinned q
    | inr q ↦ absurd (h (closed fuel port command args q))
  ]

  -- Over either channel, what a request sends is the front of its text.
  pub request_front :
      (fuel : ℕ) (https : Bool) (port : ℤ) (command args : Bytes)
      → (left : Bytes) × (request_text c port command args x.random
          ≡ (request read_pem fuel https c port command args x).0 ++ left)
  unfolding request exchange
  request_front fuel https port command args =
      let text = request_text c port command args x.random in
      let (left, whole, _) = send_all-front x.sends text in
      elim (Bool-cases (tcp_connect x)) [
        | inr q ↦ (text, rw q refl)
        | inl q ↦ elim (Bool-cases (is_open read_pem https c x)) [
          | inr o ↦ (text, rw (q, o) refl)
          | inl o ↦ (left, rw (q, o) whole)
        ]
      ]
