-- ===== src/Net/Http.antt =====
-- src/net/http_client.cpp: the text of a request and what is made of the text of a response. The
-- sockets and TLS are not modelled.
use arcade_launcher_stream_e.Net.Xml.{split_before, split_at}
use arcade_launcher_stream_e.Base.Result.{Result, ok, out_of_fuel, ◌>>=◌}
use arcade_launcher_stream_e.Base.{
  ℕ, zero, suc, ◌+◌, ◌*◌, ◌%◌, ◌^◌, Bytes, codes, Bool, true, false, not, ◌&&◌, [], ◌∷◌, ◌++◌, ltb,
  leb, ◌==◌, if◌then◌else◌, Option, none, some, length, is_empty, starts_with, contains, ℤ, pos,
  hex_value, atoi, drop, take,
}
pub mod Search
pub mod Sizes
pub mod Chunks
pub mod Response

unfoldable pub build_request_target : Bytes → Bytes → Bytes → Bytes → Bytes
build_request_target command unique_id uuid_hex args =
    let t =
      b'/' ∷ (command ++ (codes "?uniqueid=" ++ (unique_id ++ (codes "&uuid=" ++ uuid_hex)))) in
    if not (is_empty args) then t ++ (b'&' ∷ args) else t

abbrev pub crlf : Bytes
crlf = 13 ∷ 10 ∷ []

-- what a size_t holds
abbrev pub size_limit : ℕ
size_limit = 2 ^ 64

-- The loop over the size of a chunk, with the number so far; `none` while no digit was read.
unfoldable pub chunk_size : Option ℕ → Bytes → Option ℕ
chunk_size len [] = len
chunk_size len (c ∷ s) = elim (hex_value c) [
  | none ↦ len
  | some v ↦ chunk_size (some ((elim len [ none ↦ 0 | some n ↦ n ] * 16 + v) % size_limit)) s
]

module _ (body : Bytes) where
  -- A chunk of a known size that starts at `start`; the rest of the loop is handed in.
  unfoldable pub take_chunk : (ℕ → Bytes → Result Bytes) → Bytes → ℕ → Option ℕ → Result Bytes
  take_chunk loop out start none = ok out
  take_chunk loop out start (some len) =
      let rest = loop ((start + len + 2) % size_limit) (out ++ take len (drop start body)) in
      if len == 0
      then ok out
      else if ltb (length body) ((start + len) % size_limit)
      then ok out
      else rest

  unfoldable pub read_line :
      (ℕ → Bytes → Result Bytes) → Bytes → ℕ → Option (Bytes × Bytes) → Result Bytes
  unfolding take_chunk
  read_line loop out i none = ok out
  read_line loop out i (some (line, _)) =
      take_chunk loop out (i + length line + 2) (chunk_size none line)

  -- The loop of `dechunk` at position `i`, with fuel for its rounds
  unfoldable pub dechunk_loop : ℕ → ℕ → Bytes → Result Bytes
  unfolding read_line
  dechunk_loop zero i out = out_of_fuel
  dechunk_loop (suc f) i out =
      let round =
        read_line (λ j out'. dechunk_loop f j out') out i (split_before crlf (drop i body)) in
      if leb (length body) i then ok out else round

-- `dechunk`, with fuel for its rounds. There are bodies on which the loop of the program does not
-- end, so no fuel is enough for all of them.
unfoldable pub dechunk : ℕ → Bytes → Result Bytes
dechunk f body = dechunk_loop body f 0 []

pub record HttpResponse : Type 0 where
  pub is_ok : Bool
  pub http_status : ℤ
  pub body : Bytes

abbrev pub refused : HttpResponse
refused = record { is_ok = false; http_status = pos 0; body = [] }

-- std::tolower in the C locale
unfoldable pub lower : Bytes → Bytes
lower [] = []
lower (c ∷ s) = (if leb b'A' c && leb c b'Z' then c + 32 else c) ∷ lower s

-- The split at a separator, without the separator.
abbrev pub halves : Bytes → Bytes → Option (Bytes × Bytes) → Bytes × Bytes → Bytes × Bytes
halves sep raw none other = other
halves sep raw (some (head, from)) other = (head, drop (length sep) from)

-- The header block and the body.
unfoldable pub split_response : Bytes → Bytes × Bytes
split_response raw =
    halves (crlf ++ crlf) raw (split_before (crlf ++ crlf) raw)
      (halves (10 ∷ 10 ∷ []) raw (split_before (10 ∷ 10 ∷ []) raw) (raw, []))

unfoldable pub decode_body : ℕ → Bytes × Bytes → Result Bytes
decode_body f (headers, body) =
    if contains (codes "transfer-encoding: chunked") (lower headers)
    then dechunk f body
    else ok body

abbrev pub with_status : ℕ → Bytes → Option (Bytes × Bytes) → Result HttpResponse
with_status f raw none = ok refused
with_status f raw (some (_, status)) = decode_body f (split_response raw) >>= λ body.
    ok (record { is_ok = true; http_status = atoi status; body = body })

unfoldable pub parse_http_response : ℕ → Bytes → Result HttpResponse
parse_http_response f raw =
    if not (starts_with (codes "HTTP/") raw)
    then ok refused
    else with_status f raw (split_at b' ' raw)
