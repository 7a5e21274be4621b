-- ===== src/Net/Pairing.antt =====
-- src/net/nv_pairing.cpp: the pairing flow as the tree of its calls. What a call returns is the
-- argument of what follows it, so the flow stands for every server and every source of random bytes.
use arcade_launcher_stream_e.Net.Hex.{to_hex}
use arcade_launcher_stream_e.Net.PairingCrypto.{
  OpenSsl, gen_hash, aes_ecb_encrypt, derive_aes_key, aes_ecb_decrypt,
}
use arcade_launcher_stream_e.Net.Xml.{xml_attr, xml_text, xml_text_hex}
use arcade_launcher_stream_e.Base.{
  ℕ, zero, suc, ◌+◌, Bytes, codes, Bool, true, false, not, ◌&&◌, [], ◌∷◌, ◌++◌, ltb, leb,
  if◌then◌else◌, length, bytes_eq, is_empty, ℤ, take, drop, below,
}
pub mod Runs
pub mod Trace
pub mod Outcome

pub data PairState : Type 0 where
  paired failed pin_wrong already_in_progress : PairState

pub record PairResult : Type 0 where
  pub state : PairState
  pub server_cert_pem : Bytes

pub record ClientIdentity : Type 0 where
  pub cert_pem : Bytes
  pub key_pem : Bytes

-- The calls of the flow: `transport https command args`, `setPinnedCert pem`, `randomFn n`.
pub data Flow : Type 0 where
  done : PairResult → Flow
  transport : Bool → Bytes → Bytes → (Bytes → Flow) → Flow
  set_pinned_cert : Bytes → Flow → Flow
  random : ℕ → (Bytes → Flow) → Flow

abbrev pub pair_prefix : Bytes
pair_prefix = codes "devicename=roth&updateState=1&"

unfoldable pub paired_ok : Bytes → Bool
paired_ok xml =
    not (is_empty xml)
    && bytes_eq (xml_attr xml (codes "root") (codes "status_code")) (codes "200")
    && bytes_eq (xml_text xml (codes "paired")) (codes "1")

abbrev pub ends : PairState → Flow
ends s = done (record { state = s; server_cert_pem = [] })

-- `unpair`, whose answer is ignored, and the return behind it
abbrev pub cancel : PairState → Flow
cancel s = transport false (codes "unpair") [] (λ _. ends s)

unfoldable pub zeros : ℕ → Bytes
zeros zero = []
zeros (suc n) = 0 ∷ zeros n

-- `s.resize(n, '\0')`
unfoldable pub resize : ℕ → Bytes → Bytes
resize n s = take n (s ++ zeros n)

-- A `pair` request, which cancels the pairing if the answer is not accepted.
abbrev pub pair_request : Bool → Bytes → (Bytes → Flow) → Flow
pair_request https args next =
    transport https (codes "pair") (pair_prefix ++ args)
      (λ reply. if not (paired_ok reply) then cancel failed else next reply)

module _ (ssl : OpenSsl) (identity : ClientIdentity) (gen7 : Bool) where
  abbrev pub hash_length : ℕ
  hash_length = if gen7 then 32 else 20

  -- Stage 5, over HTTPS
  unfoldable pub pair_challenge : Bytes → Flow
  pair_challenge cert =
      pair_request true (codes "phrase=pairchallenge")
        (λ _. done (record { state = paired; server_cert_pem = cert }))

  -- Stage 4
  unfoldable pub client_pairing_secret : Bytes → Bytes → Flow
  client_pairing_secret cert client_secret =
      pair_request false
        (codes "clientpairingsecret="
          ++ to_hex (client_secret ++ ssl.sign_message client_secret identity.key_pem))
        (λ _. pair_challenge cert)

  -- What the server's hash must be.
  unfoldable pub expected_hash : Bytes → Bytes → Bytes → Bytes
  expected_hash cert challenge server_secret =
      gen_hash ssl (challenge ++ (ssl.cert_signature cert ++ server_secret)) gen7

  -- The checks behind stage 3
  unfoldable pub check_server : Bytes → Bytes → Bytes → Bytes → Bytes → Flow
  check_server cert challenge server_response client_secret pairing_secret =
      if leb (length pairing_secret) 16
      then cancel failed
      else if not (ssl.verify_signature (take 16 pairing_secret) (drop 16 pairing_secret) cert)
      then cancel failed
      else if not (bytes_eq (expected_hash cert challenge (take 16 pairing_secret)) server_response)
      then cancel pin_wrong
      else client_pairing_secret cert client_secret

  -- The hash of stage 3, padded to two blocks
  unfoldable pub client_hash : Bytes → Bytes → Bytes
  client_hash challenge_response client_secret = resize 32 (
      gen_hash ssl
        (take 16 (drop hash_length challenge_response)
          ++ (ssl.cert_signature identity.cert_pem ++ client_secret))
        gen7)

  -- Stage 3
  unfoldable pub server_challenge_resp : Bytes → Bytes → Bytes → Bytes → Flow
  server_challenge_resp aes_key cert challenge challenge_response =
      if ltb (length challenge_response) (hash_length + 16)
      then cancel failed
      else random 16 (λ client_secret.
        pair_request false
          (codes "serverchallengeresp="
            ++ to_hex (aes_ecb_encrypt ssl (client_hash challenge_response client_secret) aes_key))
          (λ reply.
            check_server cert challenge (take hash_length challenge_response) client_secret
              (xml_text_hex reply (codes "pairingsecret"))))

  -- Stage 2
  unfoldable pub client_challenge : Bytes → Bytes → Flow
  client_challenge aes_key cert = random 16 (λ challenge.
      pair_request false
        (codes "clientchallenge=" ++ to_hex (aes_ecb_encrypt ssl challenge aes_key))
        (λ reply.
          server_challenge_resp aes_key cert challenge
            (aes_ecb_decrypt ssl (xml_text_hex reply (codes "challengeresponse")) aes_key)))

  -- What is done with the certificate of stage 1.
  unfoldable pub take_cert : Bytes → Bytes → Flow
  take_cert aes_key cert =
      if is_empty cert
      then cancel already_in_progress
      else set_pinned_cert cert (client_challenge aes_key cert)

  -- Stage 1, where a refused request is not cancelled
  unfoldable pub get_server_cert : Bytes → Bytes → Flow
  get_server_cert aes_key salt =
      if is_empty aes_key
      then ends failed
      else transport false (codes "pair")
          (pair_prefix
            ++ (codes "phrase=getservercert&salt="
                ++ (to_hex salt ++ (codes "&clientcert=" ++ to_hex identity.cert_pem))))
          (λ reply.
            if not (paired_ok reply)
            then ends failed
            else take_cert aes_key (xml_text_hex reply (codes "plaincert")))

unfoldable pub nv_pair : OpenSsl → ClientIdentity → Bytes → ℤ → Flow
nv_pair ssl identity pin server_major_version =
    let gen7 = not (below server_major_version 7) in
    random 16 (λ salt. get_server_cert ssl identity gen7 (derive_aes_key ssl salt pin gen7) salt)
