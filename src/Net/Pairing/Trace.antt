-- ===== src/Net/Pairing/Trace.antt =====
-- Predicates on the events of a run, and what a successful pairing has shown.
use arcade_launcher_stream_e.Net.PairingCrypto.{OpenSsl}
use arcade_launcher_stream_e.Net.Pairing.{
  PairState, paired, PairResult, ClientIdentity, pair_prefix, to_hex, paired_ok, derive_aes_key,
  xml_text_hex, aes_ecb_decrypt, expected_hash, hash_length,
}
use arcade_launcher_stream_e.Net.Pairing.Runs.{Event, requested, pinned, drawn}
use arcade_launcher_stream_e.Base.{
  Bytes, codes, Bool, true, false, not, ◌&&◌, ◌||◌, List, [], ◌∷◌, ◌++◌, if◌then◌else◌, ◌≡◌,
  bytes_eq, take, drop,
}

-- the event of an `unpair` request
unfoldable pub is_unpair : Event → Bool
is_unpair (requested https command args reply) = bytes_eq command (codes "unpair")
is_unpair _ = false

unfoldable pub is_pin : Event → Bool
is_pin (pinned _) = true
is_pin _ = false

unfoldable pub any : (Event → Bool) → List Event → Bool
any p [] = false
any p (e ∷ es) = p e || any p es

unfoldable pub last_is : (Event → Bool) → List Event → Bool
last_is p [] = false
last_is p (e ∷ []) = p e
last_is p (e ∷ f ∷ es) = last_is p (f ∷ es)

unfoldable pub is_paired : PairState → Bool
is_paired paired = true
is_paired _ = false

-- A pairing that succeeds is not cancelled; one that does not succeed is cancelled by its last call,
-- or has pinned no certificate.
unfoldable pub is_tidy : List Event → PairResult → Bool
is_tidy es r =
    if is_paired r.state
    then not (any is_unpair es)
    else last_is is_unpair es || not (any is_pin es)

-- A request over HTTPS comes only behind a pinned certificate.
unfoldable pub pins_first : List Event → Bool
pins_first [] = true
pins_first (pinned _ ∷ es) = true
pins_first (requested https command args reply ∷ es) = not https && pins_first es
pins_first (drawn _ ∷ es) = pins_first es

abbrev pub pair_event : Bool → Bytes → Bytes → Event
pair_event https args reply = requested https (codes "pair") (pair_prefix ++ args) reply

-- What a run has shown that ends with this certificate: the five requests were all accepted, the
-- server has signed its secret with the key of the certificate, and its hash was made with the PIN.
pub record Proven (ssl : OpenSsl) (identity : ClientIdentity) (gen7 : Bool) (pin : Bytes)
    (events : List Event) (cert : Bytes) : Type 0 where
  pub salt : Bytes
  pub challenge : Bytes
  pub client_secret : Bytes
  pub reply1 : Bytes
  pub reply2 : Bytes
  pub reply3 : Bytes
  pub reply4 : Bytes
  pub reply5 : Bytes
  pub args1 : Bytes
  pub args2 : Bytes
  pub args3 : Bytes
  pub trace :
      events
      ≡ drawn salt
        ∷ pair_event false
            (codes "phrase=getservercert&salt="
              ++ (to_hex salt ++ (codes "&clientcert=" ++ to_hex identity.cert_pem)))
            reply1
        ∷ pinned cert
        ∷ drawn challenge
        ∷ pair_event false args1 reply2
        ∷ drawn client_secret
        ∷ pair_event false args2 reply3
        ∷ pair_event false args3 reply4
        ∷ pair_event true (codes "phrase=pairchallenge") reply5
        ∷ []
  pub accepted :
      (paired_ok reply1 ≡ true)
      × (paired_ok reply2 ≡ true)
      × (paired_ok reply3 ≡ true)
      × (paired_ok reply4 ≡ true)
      × (paired_ok reply5 ≡ true)
  pub certificate : xml_text_hex reply1 (codes "plaincert") ≡ cert
  pub signed :
      let secret = xml_text_hex reply3 (codes "pairingsecret") in
      ssl.verify_signature (take 16 secret) (drop 16 secret) cert ≡ true
  pub pin_known :
      let secret = xml_text_hex reply3 (codes "pairingsecret") in
      let response =
        aes_ecb_decrypt ssl
          (xml_text_hex reply2 (codes "challengeresponse"))
          (derive_aes_key ssl salt pin gen7) in
      expected_hash ssl identity gen7 cert challenge (take 16 secret)
      ≡ take (hash_length ssl identity gen7) response
