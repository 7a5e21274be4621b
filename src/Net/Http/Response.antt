-- ===== src/Net/Http/Response.antt =====
-- A response is taken apart into its status, its header block and its body.
use arcade_launcher_stream_e.Net.Http.Search.{split_before-append}
use arcade_launcher_stream_e.Net.Http.{
  split_response, parse_http_response, crlf, decode_body, ◌>>=◌, ok, lower, dechunk,
}
use arcade_launcher_stream_e.Net.Xml.{split_at}
use arcade_launcher_stream_e.Base.{
  ℕ, if◌then◌else◌, leb, ◌==◌, ◌+◌, Bool-cases, inl, inr, refl, Bytes, codes, true, false, [], ◌∷◌,
  ◌++◌, some, ◌≡◌, arith, append_assoc, starts_with, contains, pos, atoi, to_string, atoi-to_string,
  Bool, ◌&&◌, is_empty, sym, ◌||◌,
}

starts_with-http : (s : Bytes) → starts_with (codes "HTTP/") (codes "HTTP/" ++ s) ≡ true
unfolding starts_with
starts_with-http s = refl

split_at_first :
    (c : ℕ) (before after : Bytes)
    → contains (c ∷ []) before ≡ false
    → split_at c (before ++ (c ∷ after)) ≡ some (before, after)
unfolding split_at contains starts_with
split_at_first c [] after h = ground arith
split_at_first c (d ∷ before) after h = ground (arith, split_at_first c before after)

split_response-head :
    (head body : Bytes)
    → contains (crlf ++ crlf) (head ++ (13 ∷ 10 ∷ 13 ∷ [])) ≡ false
    → split_response (head ++ ((crlf ++ crlf) ++ body)) ≡ (head, body)
unfolding split_response
split_response-head head body h = rw (split_before-append (13 ∷ 10 ∷ 13 ∷ []) head body 10 h)

-- The text up to the end of the header block: a version, a status code, and the rest.
abbrev pub header_block : Bytes → ℕ → Bytes → Bytes
header_block version code rest =
    codes "HTTP/" ++ (version ++ (b' ' ∷ (to_string code ++ (b' ' ∷ rest))))

-- This byte of a header, in either case
unfoldable pub is_letter : ℕ → ℕ → Bool
is_letter a c = if leb b'A' c && leb c b'Z' then a == c + 32 else a == c

unfoldable pub starts_in_any_case : Bytes → Bytes → Bool
starts_in_any_case [] s = true
starts_in_any_case (a ∷ p) [] = false
starts_in_any_case (a ∷ p) (c ∷ s) = is_letter a c && starts_in_any_case p s

-- The text, whose letters are small ones, stands somewhere in the headers, in any case.
unfoldable pub stands_in : Bytes → Bytes → Bool
stands_in p [] = is_empty p
stands_in p (c ∷ s) = starts_in_any_case p (c ∷ s) || stands_in p s

starts_with-lower : (p s : Bytes) → starts_with p (lower s) ≡ starts_in_any_case p s
unfolding starts_with lower starts_in_any_case is_letter
starts_with-lower [] s = refl
starts_with-lower (a ∷ p) [] = refl
starts_with-lower (a ∷ p) (c ∷ s) = rw (starts_with-lower p s) (ground arith)

contains-lower : (p s : Bytes) → contains p (lower s) ≡ stands_in p s
unfolding contains lower stands_in
contains-lower p [] = refl
contains-lower p (c ∷ s) =
    rw (contains-lower p s, sym (starts_with-lower p (c ∷ s))) (unfold lower in refl)

-- A response whose version has no space and whose header block is ended by the first empty line is
-- accepted with its status code. Its body is put together from chunks where the header block has
-- the text "transfer-encoding: chunked", in any case, and is the rest of the response where it has
-- not.
pub parse_http_response-header_block :
    (version rest body : Bytes) (code f : ℕ)
    → contains (b' ' ∷ []) version ≡ false
    → contains (crlf ++ crlf) (header_block version code rest ++ (13 ∷ 10 ∷ 13 ∷ [])) ≡ false
    → parse_http_response f (header_block version code rest ++ ((crlf ++ crlf) ++ body)) ≡ (
        if stands_in (codes "transfer-encoding: chunked") (header_block version code rest)
        then dechunk f body
          >>= (λ b. ok (record { is_ok = true; http_status = pos code; body = b }))
        else ok (record { is_ok = true; http_status = pos code; body = body }))
unfolding parse_http_response
parse_http_response-header_block version rest body code f h k =
    let head = header_block version code rest in
    let behind = (crlf ++ crlf) ++ body in
    let spaced : split_at b' ' (head ++ behind)
        ≡ some (codes "HTTP/" ++ version, (to_string code ++ (b' ' ∷ rest)) ++ behind) =
      simp append_assoc (
        split_at_first b' ' (codes "HTTP/" ++ version) (to_string code ++ (b' ' ∷ (rest ++ behind)))
          (unfold contains starts_with in h)) in
    let status : atoi ((to_string code ++ (b' ' ∷ rest)) ++ behind) ≡ pos code =
      simp append_assoc (atoi-to_string code (rest ++ behind)) in
    let split = split_response-head head body k in
    let http =
      starts_with-http ((version ++ (b' ' ∷ (to_string code ++ (b' ' ∷ rest)))) ++ behind) in
    let chunked = contains-lower (codes "transfer-encoding: chunked") head in
    elim (Bool-cases (stands_in (codes "transfer-encoding: chunked") head)) [
      | inl e ↦ rw (http, spaced, split, status, e) (unfold decode_body in rw (chunked, e))
      | inr e ↦ rw (http, spaced, split, status, e) (unfold decode_body in rw (chunked, e))
    ]
