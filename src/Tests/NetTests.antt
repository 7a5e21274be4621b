-- ===== src/Tests/NetTests.antt =====
-- src/net on a short document, and one whole pairing.
use arcade_launcher_stream_e.Net.Pairing.Outcome.{
  is_gen7, nv_pair-is_tidy, nv_pair-pins_first, nv_pair-Proven,
}
use arcade_launcher_stream_e.Net.Pairing.Trace.{pair_event, Proven, is_tidy, pins_first, is_paired}
use arcade_launcher_stream_e.Net.Pairing.Runs.{
  Event, pinned, drawn, Runs, draws, requests, pins, returns,
}
use arcade_launcher_stream_e.Net.Xml.Entities.{encode_entities}
use arcade_launcher_stream_e.Net.Pairing.{
  ClientIdentity, zeros, nv_pair, resize, get_server_cert, PairResult, take_cert, client_challenge,
  server_challenge_resp, check_server, client_pairing_secret, pair_challenge, expected_hash,
  client_hash, paired_ok, paired,
}
use arcade_launcher_stream_e.Net.PairingCrypto.{
  OpenSsl, derive_aes_key, aes_ecb_encrypt, aes_ecb_decrypt, aes_ecb, gen_hash,
}
use arcade_launcher_stream_e.Net.Xml.Element.{
  passes, clashes, goes_on, xml_text-element, is_name, are_attributes, ends_open,
}
use arcade_launcher_stream_e.Net.Xml.{
  decode_entities, xml_text, ends_name, xml_attr, xml_text_hex, find_start_tag, is_start_tag,
  head_ends_name, split_at, split_before, decode_from, ends_in_slash, quoted,
}
use arcade_launcher_stream_e.Net.Hex.{from_hex, to_hex, from_pairs}
use arcade_launcher_stream_e.Base.{
  Bytes, codes, true, false, List, [], ◌∷◌, ◌++◌, ◌≡◌, refl, bytes_eq, is_empty, starts_with, pos,
  hex_digit, hex_value, is_space,
}

abbrev before : Bytes
before = codes "<root a=\"1\"><IDs>5</IDs>"

before-passes : passes (codes "ID") before ≡ true
unfolding passes clashes starts_with goes_on ends_name is_space
before-passes = refl

xml_text-element_example :
    xml_text
      (before ++ codes "<ID k='v'>" ++ (encode_entities (codes "x & y") ++ codes "</ID></root>"))
      (codes "ID")
    ≡ codes "x & y"
xml_text-element_example =
    xml_text-element before (codes "ID") (codes " k='v'") (codes "x & y") (codes "></root>")
      before-passes (unfold is_name ends_name is_space in refl)
      (unfold are_attributes ends_open is_space in refl)

-- Hashes and ciphers that keep their input, with no signature in a certificate.
abbrev pub ssl : OpenSsl
ssl = record {
  sha256 = λ s. resize 32 s;
  sha1 = λ s. resize 20 s;
  encrypt_blocks = λ s key. s;
  decrypt_blocks = λ s key. s;
  cert_signature = λ pem. [];
  verify_signature = λ s signature pem. bytes_eq signature (codes "S");
  sign_message = λ s key. codes "S";
}

abbrev identity : ClientIdentity
identity = record { cert_pem = codes "C"; key_pem = codes "K" }

abbrev reply : Bytes → Bytes → Bytes
reply tag hex =
    codes "<root status_code=\"200\"><paired>1</paired>"
    ++ (b'<' ∷ tag)
    ++ (b'>' ∷ hex)
    ++ (b'<' ∷ b'/' ∷ tag)
    ++ codes "></root>"

abbrev pub reply1 : Bytes
reply1 = reply (codes "plaincert") (codes "41")

abbrev pub reply2 : Bytes
reply2 = reply (codes "challengeresponse") (to_hex (zeros 48))

abbrev pub reply3 : Bytes
reply3 = reply (codes "pairingsecret") (to_hex (zeros 16 ++ codes "S"))

abbrev pub fine : Bytes
fine = reply (codes "a") []

abbrev events : List Event
events =
    drawn (zeros 16)
    ∷ pair_event false
        (codes "phrase=getservercert&salt="
          ++ (to_hex (zeros 16) ++ (codes "&clientcert=" ++ to_hex (codes "C"))))
        reply1
    ∷ pinned (codes "A")
    ∷ drawn (zeros 16)
    ∷ pair_event false (codes "clientchallenge=" ++ to_hex (zeros 16)) reply2
    ∷ drawn (zeros 16)
    ∷ pair_event false (codes "serverchallengeresp=" ++ to_hex (zeros 32)) reply3
    ∷ pair_event false (codes "clientpairingsecret=" ++ to_hex (zeros 16 ++ codes "S")) fine
    ∷ pair_event true (codes "phrase=pairchallenge") fine
    ∷ []

abbrev result : PairResult
result = record { state = paired; server_cert_pem = codes "A" }

pairing_run : Runs (nv_pair ssl identity (codes "1234") (pos 7)) events result
unfolding nv_pair get_server_cert take_cert client_challenge server_challenge_resp check_server
    client_pairing_secret pair_challenge expected_hash client_hash resize zeros paired_ok
    derive_aes_key aes_ecb_encrypt aes_ecb_decrypt aes_ecb gen_hash xml_text xml_attr xml_text_hex
    find_start_tag is_start_tag starts_with head_ends_name ends_name split_at split_before
    decode_entities decode_from ends_in_slash quoted from_hex from_pairs to_hex bytes_eq is_empty
    is_space hex_digit hex_value
pairing_run = draws (zeros 16) (
    requests reply1 (
      pins (
        draws (zeros 16) (
          requests reply2
            (draws (zeros 16) (requests reply3 (requests fine (requests fine returns))))))))

nv_pair-Proven_example : Proven ssl identity (is_gen7 (pos 7)) (codes "1234") events (codes "A")
nv_pair-Proven_example =
    nv_pair-Proven ssl identity (codes "1234") (pos 7) events result pairing_run
      (unfold is_paired in refl)

nv_pair-is_tidy_example : is_tidy events result ≡ true
nv_pair-is_tidy_example =
    nv_pair-is_tidy ssl identity (codes "1234") (pos 7) events result pairing_run

nv_pair-pins_first_example : pins_first events ≡ true
nv_pair-pins_first_example =
    nv_pair-pins_first ssl identity (codes "1234") (pos 7) events result pairing_run
