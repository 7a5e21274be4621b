-- ===== src/Net/Xml/Element.antt =====
-- The text of an element is found behind anything that has no start tag of the same name.
use arcade_launcher_stream_e.Net.Xml.Entities.{
  encode_entities, encode_byte, decode_entities-encode_entities,
}
use arcade_launcher_stream_e.Net.Xml.{
  ends_name, is_start_tag, find_start_tag, split_at, ends_in_slash, split_before, xml_text,
  head_ends_name,
}
use arcade_launcher_stream_e.Base.{
  ℕ, suc, Bytes, Bool, true, false, not, ◌&&◌, ◌||◌, [], ◌∷◌, ◌++◌, ◌==◌, some, ◌≡◌, ◌≢◌, refl, inl,
  inr, arith, length, Bool-cases, is_empty, starts_with, contains, drop, drop-length_append,
  is_space,
}

-- Some byte of the text differs from the one of the pattern.
unfoldable pub clashes : Bytes → Bytes → Bool
clashes [] s = false
clashes (a ∷ p) [] = false
clashes (a ∷ p) (c ∷ s) = not (a == c) || clashes p s

-- The text goes on with a byte that does not end a name.
unfoldable pub goes_on : Bytes → Bool
goes_on [] = false
goes_on (c ∷ s) = not (ends_name c)

-- At no place of the text is there a start tag of that name, whatever comes behind the text.
unfoldable pub passes : Bytes → Bytes → Bool
passes tag [] = true
passes tag (c ∷ s) =
    (clashes (b'<' ∷ tag) (c ∷ s)
      || starts_with (b'<' ∷ tag) (c ∷ s) && goes_on (drop (suc (length tag)) (c ∷ s)))
    && passes tag s

-- Without the bytes that end a name.
unfoldable pub is_name : Bytes → Bool
is_name [] = true
is_name (c ∷ s) = not (ends_name c) && is_name s

starts_with-clashes : (p s rest : Bytes) → clashes p s ≡ true → starts_with p (s ++ rest) ≡ false
unfolding clashes starts_with
starts_with-clashes [] s rest h = cc
starts_with-clashes (a ∷ p) [] rest h = cc
starts_with-clashes (a ∷ p) (c ∷ s) rest h = ground (arith, starts_with-clashes p s rest)

head_ends_name-drop :
    (p s rest : Bytes)
    → starts_with p s ≡ true
    → goes_on (drop (length p) s) ≡ true
    → head_ends_name (drop (length p) (s ++ rest)) ≡ false
unfolding starts_with
head_ends_name-drop [] [] rest h k = unfold goes_on in absurd (by_bool k)
  where
    by_bool : false ≢ true
    by_bool e = cc
head_ends_name-drop [] (c ∷ s) rest h k = unfold goes_on head_ends_name in ground (arith, k)
head_ends_name-drop (a ∷ p) [] rest h k = cc
head_ends_name-drop (a ∷ p) (c ∷ s) rest h k = head_ends_name-drop p s rest (ground arith) k

is_start_tag-passes :
    (tag s rest : Bytes) (c : ℕ)
    → passes tag (c ∷ s) ≡ true
    → is_start_tag tag (c ∷ (s ++ rest)) ≡ false
unfolding passes is_start_tag
is_start_tag-passes tag s rest c h = elim (Bool-cases (clashes (b'<' ∷ tag) (c ∷ s))) [
  | inl e ↦ rw (starts_with-clashes (b'<' ∷ tag) (c ∷ s) rest e)
  | inr e ↦ ground (arith, head_ends_name-drop (b'<' ∷ tag) (c ∷ s) rest)
]

find_start_tag-append :
    (tag before s : Bytes)
    → passes tag before ≡ true
    → find_start_tag tag (before ++ s) ≡ find_start_tag tag s
unfolding find_start_tag
find_start_tag-append tag [] s h = refl
find_start_tag-append tag (c ∷ before) s h =
    let rest = find_start_tag-append tag before s (unfold passes in ground arith) in
    rw (is_start_tag-passes tag before s c h) rest

starts_with-append : (p s : Bytes) → starts_with p (p ++ s) ≡ true
unfolding starts_with
starts_with-append [] s = refl
starts_with-append (c ∷ p) s = ground (arith, starts_with-append p s)

-- What stands behind the name in a start tag that is not closed at once: nothing, or a space and
-- bytes without '>', the last of which is not '/'.
unfoldable pub ends_open : Bytes → Bool
ends_open [] = true
ends_open (c ∷ []) = not (c == b'>') && not (c == b'/')
ends_open (c ∷ d ∷ s) = not (c == b'>') && ends_open (d ∷ s)

unfoldable pub are_attributes : Bytes → Bool
unfolding ends_open
are_attributes [] = true
are_attributes (c ∷ s) = is_space c && ends_open (c ∷ s)

head_ends_name-attributes :
    (attributes s : Bytes)
    → are_attributes attributes ≡ true
    → head_ends_name (attributes ++ (b'>' ∷ s)) ≡ true
unfolding are_attributes head_ends_name ends_name
head_ends_name-attributes [] s h = refl
head_ends_name-attributes (c ∷ attributes) s h = ground arith

is_start_tag-element :
    (tag attributes s : Bytes)
    → are_attributes attributes ≡ true
    → is_start_tag tag (b'<' ∷ (tag ++ (attributes ++ (b'>' ∷ s)))) ≡ true
unfolding is_start_tag
is_start_tag-element tag attributes s h =
    rw
      (
        starts_with-append (b'<' ∷ tag) (attributes ++ (b'>' ∷ s)),
        drop-length_append tag (attributes ++ (b'>' ∷ s)),
        head_ends_name-attributes attributes s h,
      )
      refl

ends_open-attributes :
    (attributes : Bytes) → are_attributes attributes ≡ true → ends_open attributes ≡ true
unfolding are_attributes
ends_open-attributes [] h = refl
ends_open-attributes (c ∷ attributes) h = ground arith

split_at-attributes :
    (attributes s : Bytes)
    → ends_open attributes ≡ true
    → split_at b'>' (attributes ++ (b'>' ∷ s)) ≡ some (attributes, s)
unfolding split_at ends_open
split_at-attributes [] s h = refl
split_at-attributes (c ∷ []) s h = ground arith
split_at-attributes (c ∷ d ∷ attributes) s h =
    let rest = split_at-attributes (d ∷ attributes) s (ground arith) in
    let other : (c == b'>') ≡ false = ground arith in rw (rest, other) refl

split_at-name :
    (tag attributes s : Bytes)
    → is_name tag ≡ true
    → ends_open attributes ≡ true
    → split_at b'>' (tag ++ (attributes ++ (b'>' ∷ s))) ≡ some (tag ++ attributes, s)
unfolding split_at is_name ends_name
split_at-name [] attributes s h k = split_at-attributes attributes s k
split_at-name (c ∷ tag) attributes s h k =
    let rest = split_at-name tag attributes s (ground arith) k in
    let other : (c == b'>') ≡ false = ground arith in rw (rest, other) refl

ends_in_slash-open :
    (d : ℕ) (attributes : Bytes)
    → ends_open (d ∷ attributes) ≡ true
    → ends_in_slash (d ∷ attributes) ≡ false
unfolding ends_in_slash ends_open
ends_in_slash-open d [] h = ground arith
ends_in_slash-open d (e ∷ attributes) h = ends_in_slash-open e attributes (ground arith)

ends_in_slash-name :
    (c : ℕ) (tag attributes : Bytes)
    → (c == b'/') ≡ false
    → is_name tag ≡ true
    → ends_open attributes ≡ true
    → ends_in_slash (c ∷ (tag ++ attributes)) ≡ false
unfolding ends_in_slash is_name ends_name
ends_in_slash-name c [] [] n h k = n
ends_in_slash-name c [] (d ∷ attributes) n h k = ends_in_slash-open d attributes k
ends_in_slash-name c (d ∷ tag) attributes n h k =
    ends_in_slash-name d tag attributes (ground arith) (ground arith) k

split_before-plain :
    (p s rest : Bytes)
    → contains (b'<' ∷ []) s ≡ false
    → split_before (b'<' ∷ p) (s ++ ((b'<' ∷ p) ++ rest)) ≡ some (s, (b'<' ∷ p) ++ rest)
unfolding split_before contains starts_with
split_before-plain p [] rest h = rw (starts_with-append p rest)
split_before-plain p (c ∷ s) rest h = ground (arith, split_before-plain p s rest)

contains-encode_entities : (s : Bytes) → contains (b'<' ∷ []) (encode_entities s) ≡ false
unfolding encode_entities
contains-encode_entities [] = unfold contains is_empty in refl
contains-encode_entities (c ∷ s) = of_byte c (encode_entities s) (contains-encode_entities s)
  where
    of_byte :
        (c : ℕ) (t : Bytes)
        → contains (b'<' ∷ []) t ≡ false
        → contains (b'<' ∷ []) (encode_byte c ++ t) ≡ false
    of_byte c t h = unfold encode_byte contains starts_with in ground (arith, h)

split_at-element :
    (tag attributes s : Bytes)
    → is_name tag ≡ true
    → ends_open attributes ≡ true
    → split_at b'>' (b'<' ∷ (tag ++ (attributes ++ (b'>' ∷ s))))
      ≡ some (b'<' ∷ (tag ++ attributes), s)
unfolding split_at
split_at-element tag attributes s h k = rw (split_at-name tag attributes s h k)

-- `xml_text` returns the text of an element, its entities decoded, whatever attributes its start tag
-- has, when no start tag of the same name stands before it, the name has none of the bytes that end
-- a name, and no attribute has a '>'.
pub xml_text-element :
    (before tag attributes text rest : Bytes)
    → passes tag before ≡ true
    → is_name tag ≡ true
    → are_attributes attributes ≡ true
    → xml_text
        (before
          ++ (b'<'
              ∷ (tag
                  ++ (attributes
                      ++ (b'>' ∷ (encode_entities text ++ (b'<' ∷ b'/' ∷ (tag ++ rest))))))))
        tag
      ≡ text
unfolding xml_text find_start_tag
xml_text-element before tag attributes text rest h k l =
    let behind = encode_entities text ++ (b'<' ∷ b'/' ∷ (tag ++ rest)) in
    let left = ends_open-attributes attributes l in
    rw
      (
        find_start_tag-append tag before (b'<' ∷ (tag ++ (attributes ++ (b'>' ∷ behind)))) h,
        is_start_tag-element tag attributes behind l,
        split_at-element tag attributes behind k left,
        ends_in_slash-name b'<' tag attributes refl k left,
        split_before-plain (b'/' ∷ tag) (encode_entities text) rest (contains-encode_entities text),
      )
      (decode_entities-encode_entities text)
