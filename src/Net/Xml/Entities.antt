-- ===== src/Net/Xml/Entities.antt =====
-- The five predefined entities are read back.
use arcade_launcher_stream_e.Net.Xml.{decode_entities, decode_from}
use arcade_launcher_stream_e.Base.{
  ℕ, Bytes, codes, [], ◌∷◌, ◌++◌, ◌==◌, if◌then◌else◌, ◌≡◌, refl, ap, arith, starts_with,
}

-- How an XML writer prints a byte of a text.
unfoldable pub encode_byte : ℕ → Bytes
encode_byte c =
    if c == b'&'
    then codes "&amp;"
    else if c == b'<'
    then codes "&lt;"
    else if c == b'>'
    then codes "&gt;"
    else if c == b'"'
    then codes "&quot;"
    else if c == b'\''
    then codes "&apos;"
    else c ∷ []

unfoldable pub encode_entities : Bytes → Bytes
encode_entities [] = []
encode_entities (c ∷ s) = encode_byte c ++ encode_entities s

decode_from-encode_byte :
    (c : ℕ) (s : Bytes) → decode_from 0 (encode_byte c ++ s) ≡ c ∷ decode_from 0 s
unfolding encode_byte decode_from starts_with
decode_from-encode_byte c s = ground arith

-- Decoding gives back the text that was written with the five entities.
pub decode_entities-encode_entities : (s : Bytes) → decode_entities (encode_entities s) ≡ s
unfolding decode_entities encode_entities
decode_entities-encode_entities [] = unfold decode_from in refl
decode_entities-encode_entities (c ∷ s) =
    rw (decode_from-encode_byte c (encode_entities s))
      (ap (λ t. c ∷ t) (decode_entities-encode_entities s))
