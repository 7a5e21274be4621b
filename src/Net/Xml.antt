-- ===== src/Net/Xml.antt =====
-- src/net/gamestream_xml.cpp: reading the text of an element and an attribute. A position in the
-- document is the text from there on; npos is `none`.
use arcade_launcher_stream_e.Net.Hex.{from_hex}
use arcade_launcher_stream_e.Base.{
  ℕ, zero, suc, Bytes, codes, Bool, false, ◌&&◌, ◌||◌, [], ◌∷◌, ◌++◌, ◌==◌, if◌then◌else◌, Option,
  none, some, length, is_empty, starts_with, is_space, drop,
}
pub mod Entities
pub mod Element

-- the bytes that end the name of a tag
unfoldable pub ends_name : ℕ → Bool
ends_name c = c == b'>' || c == b'/' || is_space c

unfoldable pub head_ends_name : Bytes → Bool
head_ends_name [] = false
head_ends_name (c ∷ s) = ends_name c

-- Whether this text is a start tag of that name.
unfoldable pub is_start_tag : Bytes → Bytes → Bool
is_start_tag tag s = starts_with (b'<' ∷ tag) s && head_ends_name (drop (suc (length tag)) s)

-- The document from its first start tag of that name on.
unfoldable pub find_start_tag : Bytes → Bytes → Option Bytes
find_start_tag tag [] = none
find_start_tag tag (c ∷ s) = if is_start_tag tag (c ∷ s) then some (c ∷ s) else find_start_tag tag s

-- One more byte before the place that was found.
abbrev pub in_front : ℕ → Option (Bytes × Bytes) → Option (Bytes × Bytes)
in_front d none = none
in_front d (some (before, after)) = some (d ∷ before, after)

-- `s.find(c)`: what is before the first such byte, and what is after it.
unfoldable pub split_at : ℕ → Bytes → Option (Bytes × Bytes)
split_at c [] = none
split_at c (d ∷ s) = let rest = split_at c s in if d == c then some ([], s) else in_front d rest

-- `s.find(p)`: what is before the first occurrence, and the text from there on.
unfoldable pub split_before : Bytes → Bytes → Option (Bytes × Bytes)
split_before p [] = if is_empty p then some ([], []) else none
split_before p (d ∷ s) =
    let rest = split_before p s in
    if starts_with p (d ∷ s) then some ([], d ∷ s) else in_front d rest

-- The loop of `decode_entities`, whose first argument is how many bytes `i` has yet to pass.
unfoldable pub decode_from : ℕ → Bytes → Bytes
decode_from n [] = []
decode_from (suc n) (c ∷ s) = decode_from n s
decode_from zero (c ∷ s) =
    let after = λ (k : ℕ). decode_from k s in
    if starts_with (codes "&amp;") (c ∷ s)
    then b'&' ∷ after 4
    else if starts_with (codes "&lt;") (c ∷ s)
    then b'<' ∷ after 3
    else if starts_with (codes "&gt;") (c ∷ s)
    then b'>' ∷ after 3
    else if starts_with (codes "&quot;") (c ∷ s)
    then b'"' ∷ after 5
    else if starts_with (codes "&apos;") (c ∷ s)
    then b'\'' ∷ after 5
    else c ∷ after 0

unfoldable pub decode_entities : Bytes → Bytes
decode_entities s = decode_from 0 s

unfoldable pub ends_in_slash : Bytes → Bool
ends_in_slash [] = false
ends_in_slash (c ∷ []) = c == b'/'
ends_in_slash (c ∷ d ∷ s) = ends_in_slash (d ∷ s)

abbrev pub text_of : Option (Bytes × Bytes) → Bytes
text_of none = []
text_of (some (content, _)) = decode_entities content

abbrev pub content_of : Bytes → Option (Bytes × Bytes) → Bytes
content_of tag none = []
content_of tag (some (head, content)) =
    if ends_in_slash head then [] else text_of (split_before (b'<' ∷ b'/' ∷ tag) content)

abbrev pub element_text : Bytes → Option Bytes → Bytes
element_text tag none = []
element_text tag (some s) = content_of tag (split_at b'>' s)

unfoldable pub xml_text : Bytes → Bytes → Bytes
xml_text xml tag = element_text tag (find_start_tag tag xml)

-- The value that starts with its quote.
unfoldable pub quoted : Bytes → Bytes
quoted [] = []
quoted (q ∷ s) = if q == b'"' || q == b'\'' then text_of (split_at q s) else []

abbrev pub value_of : Bytes → Option (Bytes × Bytes) → Bytes
value_of attr none = []
value_of attr (some (_, from)) = quoted (drop (suc (length attr)) from)

abbrev pub attr_in : Bytes → Option (Bytes × Bytes) → Bytes
attr_in attr none = []
attr_in attr (some (head, _)) = value_of attr (split_before (attr ++ (b'=' ∷ [])) head)

abbrev pub element_attr : Bytes → Option Bytes → Bytes
element_attr attr none = []
element_attr attr (some s) = attr_in attr (split_at b'>' s)

unfoldable pub xml_attr : Bytes → Bytes → Bytes → Bytes
xml_attr xml tag attr = element_attr attr (find_start_tag tag xml)

unfoldable pub xml_text_hex : Bytes → Bytes → Bytes
xml_text_hex xml tag = from_hex (xml_text xml tag)
