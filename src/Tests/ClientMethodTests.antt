-- ===== src/Tests/ClientMethodTests.antt =====
-- src/client/stream_main.cpp: a host is paired, and a stream is started on it.
use arcade_launcher_stream_e.Tests.NetTests.{ssl, reply1, reply2, reply3, fine}
use arcade_launcher_stream_e.Sample.{small, small-Ieee}
use arcade_launcher_stream_e.Net.Pairing.{
  zeros, nv_pair, resize, get_server_cert, take_cert, client_challenge, server_challenge_resp,
  check_server, client_pairing_secret, pair_challenge, expected_hash, client_hash, paired_ok,
}
use arcade_launcher_stream_e.Net.PairingCrypto.{
  derive_aes_key, aes_ecb_encrypt, aes_ecb_decrypt, aes_ecb, gen_hash,
}
use arcade_launcher_stream_e.Net.Xml.{
  decode_entities, xml_text, ends_name, xml_attr, xml_text_hex, find_start_tag, is_start_tag,
  head_ends_name, split_at, split_before, decode_from, ends_in_slash, quoted,
}
use arcade_launcher_stream_e.Net.Hex.{from_hex, to_hex, from_pairs}
use arcade_launcher_stream_e.Net.Store.{find_host, upsert_host, read_hosts, upsert}
use arcade_launcher_stream_e.Json.{
  Value, obj, field, str, no_fields, get_str, find, find_field, str_or, set, bool, set_field,
}
use arcade_launcher_stream_e.Client.World.{
  World, gives, refuses, require, needed, on_network, ◌>>=◌, ◌>>◌,
}
use arcade_launcher_stream_e.Client.Session.{new_session}
use arcade_launcher_stream_e.Client.Methods.Registry.{trusted_host, trust_host-finds}
use arcade_launcher_stream_e.Client.Methods.{
  client_pair, trust_host, load_identity, put_file, store_host, major_version, is_serverinfo,
  learn_port, paired_answer,
}
use arcade_launcher_stream_e.Net.Network.{ask, draw, drive, pair_with_client}
use arcade_launcher_stream_e.Net.HttpClient.{new_client}
use arcade_launcher_stream_e.Net.Identity.{load_or_create_identity, is_complete}
use arcade_launcher_stream_e.Base.{
  Bytes, codes, true, false, [], ◌∷◌, if◌then◌else◌, none, some, ◌≡◌, refl, bytes_eq, is_empty,
  atoi, starts_with, hex_digit, hex_value, is_space, skip_spaces, signed_value, digits_value,
  is_digit, bytes_lt,
}

abbrev pub info : Bytes
info = codes "<root status_code=\"200\"><appversion>7.1</appversion></root>"

abbrev pub world : World
world = record {
  hosts_file = none;
  can_write_hosts = true;
  identity_files = record { cert_file = none; key_file = none; uid_file = none; can_write = true };
  fresh_identity = some (record { cert_pem = codes "C"; key_pem = codes "K" });
  fresh_unique_id = codes "0123456789abcdef";
  network = record {
    answers = info ∷ reply1 ∷ reply2 ∷ reply3 ∷ fine ∷ fine ∷ [];
    randoms = zeros 16 ∷ zeros 16 ∷ zeros 16 ∷ [];
    requests = [];
  };
  session = new_session;
  ended = false;
}

abbrev pair_params : Value
pair_params =
    obj
      (field (codes "host") (str (codes "h")) (field (codes "pin") (str (codes "1234")) no_fields))

-- The host is paired.
world_paired :
    (client_pair ssl pair_params world).0
    ≡ gives (
        obj (
          field
            (codes "paired")
            (bool true)
            (field (codes "serverCert") (str (codes "41")) no_fields)))
unfolding client_pair get_str str_or find find_field bytes_eq is_empty require ◌>>=◌ ◌>>◌
    load_identity load_or_create_identity is_complete new_client on_network ask is_serverinfo
    major_version learn_port needed atoi skip_spaces signed_value digits_value is_digit
    pair_with_client drive draw paired_answer store_host put_file upsert_host read_hosts upsert set
    set_field bytes_lt nv_pair get_server_cert take_cert client_challenge server_challenge_resp
    check_server client_pairing_secret pair_challenge expected_hash client_hash resize zeros
    paired_ok derive_aes_key aes_ecb_encrypt aes_ecb_decrypt aes_ecb gen_hash xml_text xml_attr
    xml_text_hex find_start_tag is_start_tag starts_with head_ends_name ends_name split_at
    split_before decode_entities decode_from ends_in_slash quoted from_hex from_pairs to_hex
    is_space hex_digit hex_value
world_paired = refl

abbrev trust_params : Value
trust_params = obj (
    field (codes "host") (str (codes "h"))
      (field (codes "serverCertPem") (str (codes "A")) no_fields))

trust_host-finds_example :
    ((v : Value)
      → (trust_host trust_params world).0 ≡ gives v
      → (address : Bytes)
      → find_host address (trust_host trust_params world).1.hosts_file ≡ (
          if bytes_eq (get_str trust_params (codes "host") []) address
          then some (trusted_host trust_params)
          else find_host address world.hosts_file))
    × ((code message : Bytes)
        → (trust_host trust_params world).0 ≡ refuses code message
        → ((trust_host trust_params world).1.hosts_file ≡ world.hosts_file)
          × ((trust_host trust_params world).1.session ≡ world.session))
trust_host-finds_example = trust_host-finds small-Ieee trust_params world
