-- ===== src/Net/Pairing/Outcome.antt =====
-- What every run of the pairing flow has in common, whatever the server answers.
use arcade_launcher_stream_e.Net.Pairing.Trace.{
  pair_event, is_tidy, is_paired, pins_first, Proven, last_is, is_unpair, any, is_pin,
}
use arcade_launcher_stream_e.Net.PairingCrypto.{OpenSsl}
use arcade_launcher_stream_e.Net.Pairing.{
  paired, PairResult, ClientIdentity, Flow, get_server_cert, to_hex, paired_ok, derive_aes_key,
  xml_text_hex, aes_ecb_decrypt, expected_hash, hash_length, failed, client_pairing_secret,
  pair_request, pair_challenge, done, check_server, server_challenge_resp, client_challenge,
  aes_ecb_encrypt, take_cert, nv_pair, client_hash,
}
use arcade_launcher_stream_e.Net.Pairing.Runs.{
  Event, requested, pinned, drawn, Always, Runs, Always-Runs,
}
use arcade_launcher_stream_e.Base.{
  ◌+◌, Bytes, codes, Bool, true, false, not, List, [], ◌∷◌, ◌++◌, ltb, leb, ◌≡◌, ◌≢◌, refl, inl,
  inr, length, Bool-cases, bytes_eq, bytes_eq_iff, is_empty, ℤ, take, drop, below,
}

not_paired : false ≢ true
not_paired e = cc

-- A pair request in a run: its failure is cancelled, and its success is followed up.
pair_request-Always :
    (P : List Event → PairResult → Type 0) (https : Bool) (args : Bytes) (next : Bytes → Flow)
    → ((reply reply' : Bytes)
        → P
            (pair_event https args reply ∷ requested false (codes "unpair") [] reply' ∷ [])
            (record { state = failed; server_cert_pem = [] }))
    → ((reply : Bytes)
        → paired_ok reply ≡ true
        → Always (λ es. P (pair_event https args reply ∷ es)) (next reply))
    → Always P (pair_request https args next)
pair_request-Always P https args next bad good reply = elim (Bool-cases (paired_ok reply)) [
  | inl e ↦ rw e (good reply e)
  | inr e ↦ rw e (λ reply'. bad reply reply')
]

module _ (ssl : OpenSsl) (identity : ClientIdentity) (gen7 : Bool) (pin : Bytes) where
  abbrev Fine : List Event → PairResult → Type 0
  Fine es r =
      (is_tidy es r ≡ true)
      × (pins_first es ≡ true)
      × (is_paired r.state ≡ true → Proven ssl identity gen7 pin es r.server_cert_pem)

  -- the events up to the certificate, in front of the others
  abbrev front : Bytes → Bytes → Bytes → List Event → List Event
  front salt reply1 cert es =
      drawn salt
      ∷ pair_event false
          (codes "phrase=getservercert&salt="
            ++ (to_hex salt ++ (codes "&clientcert=" ++ to_hex identity.cert_pem)))
          reply1
      ∷ pinned cert
      ∷ es

  module _ (salt reply1 cert : Bytes) (accepted1 : paired_ok reply1 ≡ true)
      (certificate : xml_text_hex reply1 (codes "plaincert") ≡ cert) where
    abbrev aes_key : Bytes
    aes_key = derive_aes_key ssl salt pin gen7

    -- What is known behind the checks of stage 3.
    abbrev Checked : Bytes → Bytes → Bytes → Type 0
    Checked challenge reply2 reply3 =
        let secret = xml_text_hex reply3 (codes "pairingsecret") in
        (paired_ok reply2 ≡ true)
        × (paired_ok reply3 ≡ true)
        × (ssl.verify_signature (take 16 secret) (drop 16 secret) cert ≡ true)
        × (expected_hash ssl identity gen7 cert challenge (take 16 secret)
            ≡ take (hash_length ssl identity gen7)
                (aes_ecb_decrypt ssl (xml_text_hex reply2 (codes "challengeresponse")) aes_key))

    -- the events of stages 2 and 3
    abbrev middle : Bytes → Bytes → Bytes → Bytes → Bytes → Bytes → List Event → List Event
    middle challenge args1 reply2 client_secret args2 reply3 es = front salt reply1 cert (
        drawn challenge
        ∷ pair_event false args1 reply2
        ∷ drawn client_secret
        ∷ pair_event false args2 reply3
        ∷ es)

    Fine-secret :
        (challenge args1 reply2 client_secret args2 reply3 : Bytes)
        → Checked challenge reply2 reply3
        → Always
            (λ es. Fine (middle challenge args1 reply2 client_secret args2 reply3 es))
            (client_pairing_secret ssl identity gen7 cert client_secret)
    unfolding client_pairing_secret pair_challenge is_tidy pins_first last_is is_unpair is_paired
        any bytes_eq is_pin
    Fine-secret challenge args1 reply2 client_secret args2 reply3 (ok2, ok3, signed, known) =
        let sent =
          codes "clientpairingsecret="
          ++ to_hex (client_secret ++ ssl.sign_message client_secret identity.key_pem) in
        pair_request-Always
          (λ es. Fine (middle challenge args1 reply2 client_secret args2 reply3 es)) false sent
          (λ _. pair_challenge ssl identity gen7 cert)
          (λ _ _. (refl, refl, λ e. absurd (not_paired e)))
          (λ reply4 ok4.
            pair_request-Always
              (λ es. Fine (
                middle challenge args1 reply2 client_secret args2 reply3
                  (pair_event false sent reply4 ∷ es)))
              true (codes "phrase=pairchallenge")
              (λ _. done (record { state = paired; server_cert_pem = cert }))
              (λ _ _. (refl, refl, λ e. absurd (not_paired e)))
              (λ reply5 ok5. (
                refl,
                refl,
                λ _. record {
                  salt = salt;
                  challenge = challenge;
                  client_secret = client_secret;
                  reply1 = reply1;
                  reply2 = reply2;
                  reply3 = reply3;
                  reply4 = reply4;
                  reply5 = reply5;
                  args1 = args1;
                  args2 = args2;
                  args3 = sent;
                  trace = refl;
                  accepted = (accepted1, ok2, ok3, ok4, ok5);
                  certificate = certificate;
                  signed = signed;
                  pin_known = known;
                },
              )))

    Fine-server :
        (challenge args1 reply2 client_secret args2 reply3 : Bytes)
        → paired_ok reply2 ≡ true
        → paired_ok reply3 ≡ true
        → Always
            (λ es. Fine (middle challenge args1 reply2 client_secret args2 reply3 es))
            (check_server ssl identity gen7 cert challenge
              (take
                (hash_length ssl identity gen7)
                (aes_ecb_decrypt ssl (xml_text_hex reply2 (codes "challengeresponse")) aes_key))
              client_secret
              (xml_text_hex reply3 (codes "pairingsecret")))
    unfolding check_server is_tidy pins_first last_is is_unpair is_paired any bytes_eq is_pin
    Fine-server challenge args1 reply2 client_secret args2 reply3 ok2 ok3 =
        let secret = xml_text_hex reply3 (codes "pairingsecret") in
        let expected = expected_hash ssl identity gen7 cert challenge (take 16 secret) in
        let answered =
          take (hash_length ssl identity gen7)
            (aes_ecb_decrypt ssl (xml_text_hex reply2 (codes "challengeresponse")) aes_key) in
        elim (Bool-cases (leb (length secret) 16)) [
          | inl e ↦ rw e (λ _. (refl, refl, λ e. absurd (not_paired e)))
          | inr long ↦
              elim (Bool-cases (ssl.verify_signature (take 16 secret) (drop 16 secret) cert)) [
                | inr e ↦ rw (long, e) (λ _. (refl, refl, λ e. absurd (not_paired e)))
                | inl signed ↦ elim (Bool-cases (bytes_eq expected answered)) [
                  | inr e ↦ rw (long, signed, e) (λ _. (refl, refl, λ e. absurd (not_paired e)))
                  | inl known ↦
                      rw (long, signed, known)
                        (Fine-secret challenge args1 reply2 client_secret args2 reply3
                          (ok2, ok3, signed, (bytes_eq_iff expected answered).0 known))
                ]
              ]
        ]

    Fine-response :
        (challenge args1 reply2 : Bytes)
        → paired_ok reply2 ≡ true
        → Always
            (λ es.
              Fine (front salt reply1 cert (drawn challenge ∷ pair_event false args1 reply2 ∷ es)))
            (server_challenge_resp ssl identity gen7 aes_key cert challenge
              (aes_ecb_decrypt ssl (xml_text_hex reply2 (codes "challengeresponse")) aes_key))
    unfolding server_challenge_resp is_tidy pins_first last_is is_unpair is_paired any bytes_eq
        is_pin
    Fine-response challenge args1 reply2 ok2 =
        let response =
          aes_ecb_decrypt ssl (xml_text_hex reply2 (codes "challengeresponse")) aes_key in
        elim (Bool-cases (ltb (length response) (hash_length ssl identity gen7 + 16))) [
          | inl e ↦ rw e (λ _. (refl, refl, λ e. absurd (not_paired e)))
          | inr e ↦ rw e (λ client_secret.
              pair_request-Always
                (λ es. Fine (
                  front salt reply1 cert
                    (drawn challenge ∷ pair_event false args1 reply2 ∷ drawn client_secret ∷ es)))
                false
                (codes "serverchallengeresp="
                  ++ to_hex (
                      aes_ecb_encrypt ssl (client_hash ssl identity gen7 response client_secret)
                        aes_key))
                (λ reply.
                  check_server ssl identity gen7 cert challenge
                    (take (hash_length ssl identity gen7) response) client_secret
                    (xml_text_hex reply (codes "pairingsecret")))
                (λ _ _. (refl, refl, λ e. absurd (not_paired e)))
                (λ reply3 ok3. Fine-server challenge args1 reply2 client_secret _ reply3 ok2 ok3))
        ]

    Fine-challenge :
        Always
          (λ es. Fine (front salt reply1 cert es))
          (client_challenge ssl identity gen7 aes_key cert)
    unfolding client_challenge is_tidy pins_first last_is is_unpair is_paired any bytes_eq is_pin
    Fine-challenge challenge =
        pair_request-Always (λ es. Fine (front salt reply1 cert (drawn challenge ∷ es))) false
          (codes "clientchallenge=" ++ to_hex (aes_ecb_encrypt ssl challenge aes_key))
          (λ reply.
            server_challenge_resp ssl identity gen7 aes_key cert challenge
              (aes_ecb_decrypt ssl (xml_text_hex reply (codes "challengeresponse")) aes_key))
          (λ _ _. (refl, refl, λ e. absurd (not_paired e)))
          (λ reply2 ok2. Fine-response challenge _ reply2 ok2)

  Fine-server_cert :
      (salt : Bytes)
      → Always
          (λ es. Fine (drawn salt ∷ es))
          (get_server_cert ssl identity gen7 (derive_aes_key ssl salt pin gen7) salt)
  unfolding get_server_cert take_cert is_tidy pins_first last_is is_unpair is_paired any bytes_eq
      is_pin
  Fine-server_cert salt = elim (Bool-cases (is_empty (derive_aes_key ssl salt pin gen7))) [
    | inl e ↦ rw e (refl, refl, λ e. absurd (not_paired e))
    | inr e ↦ rw e (λ reply1. elim (Bool-cases (paired_ok reply1)) [
      | inr e ↦ rw e (refl, refl, λ e. absurd (not_paired e))
      | inl ok1 ↦ elim (Bool-cases (is_empty (xml_text_hex reply1 (codes "plaincert")))) [
        | inl e ↦ rw (ok1, e) (λ _. (refl, refl, λ e. absurd (not_paired e)))
        | inr e ↦
            rw (ok1, e)
              (Fine-challenge salt reply1 (xml_text_hex reply1 (codes "plaincert")) ok1 refl)
      ]
    ])
  ]

-- `serverMajorVersion >= 7`
abbrev pub is_gen7 : ℤ → Bool
is_gen7 server_major_version = not (below server_major_version 7)

nv_pair-Fine :
    (ssl : OpenSsl) (identity : ClientIdentity) (pin : Bytes) (version : ℤ)
    → Always (Fine ssl identity (is_gen7 version) pin) (nv_pair ssl identity pin version)
unfolding nv_pair
nv_pair-Fine ssl identity pin version salt =
    Fine-server_cert ssl identity (is_gen7 version) pin salt

module _ (ssl : OpenSsl) (identity : ClientIdentity) (pin : Bytes) (version : ℤ)
    (events : List Event) (r : PairResult)
    (run : Runs (nv_pair ssl identity pin version) events r) where
  -- When the result of `nv_pair` is that the host is paired, the run has made the five requests in
  -- order and all five were accepted, the returned certificate is the one of the first answer, the
  -- server has signed its secret with the key of that certificate, and its hash is the one that the
  -- key made from the PIN decrypts to.
  pub nv_pair-Proven :
      is_paired r.state ≡ true → Proven ssl identity (is_gen7 version) pin events r.server_cert_pem
  nv_pair-Proven =
      (Always-Runs (Fine ssl identity (is_gen7 version) pin) (nv_pair-Fine ssl identity pin version)
        run).2

  -- A run of `nv_pair` that succeeds sends no `unpair`; one that does not succeed sends `unpair` as
  -- its last call, or has pinned no certificate.
  pub nv_pair-is_tidy : is_tidy events r ≡ true
  nv_pair-is_tidy =
      (Always-Runs (Fine ssl identity (is_gen7 version) pin) (nv_pair-Fine ssl identity pin version)
        run).0

  -- In a run of `nv_pair`, a request goes over HTTPS only behind the pinning of the certificate.
  pub nv_pair-pins_first : pins_first events ≡ true
  nv_pair-pins_first =
      (Always-Runs (Fine ssl identity (is_gen7 version) pin) (nv_pair-Fine ssl identity pin version)
        run).1
