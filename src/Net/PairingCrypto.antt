-- ===== src/Net/PairingCrypto.antt =====
-- src/net/pairing_crypto.cpp around the calls of OpenSSL, which are parameters: each returns the
-- empty text where the call fails.
use arcade_launcher_stream_e.Base.{
  ◌%◌, Bytes, Bool, not, ◌||◌, [], ◌++◌, ltb, ◌==◌, if◌then◌else◌, length, is_empty, take, ℤ, below,
  Option, none, some,
}

pub record OpenSsl : Type 0 where
  -- EVP_Digest with SHA-256 and with SHA-1
  pub sha256 : Bytes → Bytes
  pub sha1 : Bytes → Bytes
  -- EVP_aes_128_ecb without padding: key and data, whole blocks
  pub encrypt_blocks : Bytes → Bytes → Bytes
  pub decrypt_blocks : Bytes → Bytes → Bytes
  -- the signature inside of a PEM certificate
  pub cert_signature : Bytes → Bytes
  -- the data, its signature, and the certificate whose key has signed it
  pub verify_signature : Bytes → Bytes → Bytes → Bool
  -- the message and the private key
  pub sign_message : Bytes → Bytes → Bytes

-- `aes_ecb`: the sizes that are refused before OpenSSL is called.
unfoldable pub aes_ecb : (Bytes → Bytes → Bytes) → Bytes → Bytes → Bytes
aes_ecb cipher input key =
    if not (length key == 16) || is_empty input || not (length input % 16 == 0)
    then []
    else cipher input key

module _ (ssl : OpenSsl) where
  unfoldable pub aes_ecb_encrypt : Bytes → Bytes → Bytes
  aes_ecb_encrypt plaintext key = aes_ecb ssl.encrypt_blocks plaintext key

  unfoldable pub aes_ecb_decrypt : Bytes → Bytes → Bytes
  aes_ecb_decrypt ciphertext key = aes_ecb ssl.decrypt_blocks ciphertext key

  unfoldable pub gen_hash : Bytes → Bool → Bytes
  gen_hash input gen7plus = if gen7plus then ssl.sha256 input else ssl.sha1 input

  unfoldable pub derive_aes_key : Bytes → Bytes → Bool → Bytes
  derive_aes_key salt pin gen7plus =
      let hashed = gen_hash (salt ++ pin) gen7plus in
      if ltb (length hashed) 16 then [] else take 16 hashed

-- `random_bytes`; the bytes that OpenSSL gives, `none` if it fails
unfoldable pub random_bytes : ℤ → Option Bytes → Bytes
random_bytes length none = []
random_bytes length (some bytes) = if below length 1 then [] else bytes
