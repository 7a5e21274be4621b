-- ===== src/Tests/HttpTests.antt =====
-- src/net/http_client.cpp and src/net/identity_store.cpp on short texts.
use arcade_launcher_stream_e.Net.Identity.UniqueId.{hex_number}
use arcade_launcher_stream_e.Base.Result.{ok, out_of_fuel, ◌>>=◌}
use arcade_launcher_stream_e.Sample.{small, small-Ieee}
use arcade_launcher_stream_e.Net.Xml.{split_before}
use arcade_launcher_stream_e.Net.Store.Hosts.{read_hosts-write_hosts, addressed}
use arcade_launcher_stream_e.Net.Http.Response.{
  header_block, parse_http_response-header_block, stands_in,
}
use arcade_launcher_stream_e.Net.Store.{
  PairedHost, read_hosts, upsert_host, remove_host, write_hosts, upsert, without,
}
use arcade_launcher_stream_e.Net.Http.{
  dechunk, dechunk_loop, parse_http_response, read_line, chunk_size, take_chunk, crlf,
}
use arcade_launcher_stream_e.Net.Http.Sizes.{hex_prefix}
use arcade_launcher_stream_e.Net.Http.Chunks.{
  Chunk, are_chunks, is_chunk, chunked, payload, dechunk-chunked,
}
use arcade_launcher_stream_e.Base.{
  ℕ, if◌then◌else◌, zero, suc, Bytes, codes, true, List, [], ◌∷◌, ◌++◌, none, some, ◌≡◌, refl, ◌∙◌,
  arith, bytes_eq, is_empty, starts_with, contains, pos, hex_value, to_string,
}

-- Two chunks, the first with an extension behind its size.
abbrev two_chunks : List Chunk
two_chunks = (codes "2;x=y", codes "ab") ∷ (codes "03", codes "c\r\n") ∷ []

two_chunks-are_chunks : are_chunks two_chunks ≡ true
unfolding are_chunks is_chunk hex_prefix hex_number hex_value contains starts_with is_empty
two_chunks-are_chunks = refl

dechunk-chunked_example : dechunk 3 (chunked two_chunks) ≡ ok (payload two_chunks)
dechunk-chunked_example =
    dechunk-chunked two_chunks 3 two_chunks-are_chunks (unfold chunked in omega arith) (omega arith)

-- A body whose one size makes the position return to where the size is read again: the loop of
-- `dechunk` never ends on it, and a server can send it.
abbrev endless : Bytes
endless = codes "00ffffffffffffffec\r\n"

endless_again :
    (f : ℕ) (out : Bytes)
    → dechunk_loop endless (suc f) 2 out ≡ dechunk_loop endless f 2 (out ++ [])
unfolding dechunk_loop read_line take_chunk chunk_size hex_value split_before starts_with
endless_again f out = refl

endless_from : (f : ℕ) (out : Bytes) → dechunk_loop endless f 2 out ≡ out_of_fuel
endless_from zero out = unfold dechunk_loop in refl
endless_from (suc f) out = endless_again f out ∙ endless_from f (out ++ [])

dechunk-endless : (f : ℕ) → dechunk f endless ≡ out_of_fuel
unfolding dechunk dechunk_loop read_line take_chunk chunk_size hex_value split_before starts_with
dechunk-endless zero = refl
dechunk-endless (suc f) = endless_from f []

parse_http_response-header_block_example :
    parse_http_response 3
      (header_block (codes "1.1") 200 (codes "OK\r\nA: b") ++ ((crlf ++ crlf) ++ codes "<root/>"))
    ≡ (if stands_in
          (codes "transfer-encoding: chunked")
          (header_block (codes "1.1") 200 (codes "OK\r\nA: b"))
        then dechunk 3 (codes "<root/>")
          >>= (λ b. ok (record { is_ok = true; http_status = pos 200; body = b }))
        else ok (record { is_ok = true; http_status = pos 200; body = codes "<root/>" }))
parse_http_response-header_block_example =
    parse_http_response-header_block (codes "1.1") (codes "OK\r\nA: b") (codes "<root/>") 200 3
      (unfold contains starts_with is_empty in refl)
      (unfold contains starts_with is_empty to_string in refl)

abbrev desk : PairedHost
desk = record { address = codes "10.0.0.2"; name = codes "desk"; server_cert_pem = codes "C" }

abbrev lounge : PairedHost
lounge = record { address = codes "10.0.0.3"; name = []; server_cert_pem = codes "D" }

read_hosts-write_hosts_example :
    read_hosts (some (write_hosts (desk ∷ lounge ∷ []))) ≡ desk ∷ lounge ∷ []
read_hosts-write_hosts_example =
    read_hosts-write_hosts small-Ieee (desk ∷ lounge ∷ []) (unfold addressed is_empty in refl)

desk_written : upsert_host desk none ≡ some (write_hosts (desk ∷ []))
unfolding upsert_host read_hosts upsert is_empty
desk_written = refl

desk_removed :
    remove_host (codes "10.0.0.2") (some (write_hosts (desk ∷ lounge ∷ [])))
    ≡ some (write_hosts (lounge ∷ []))
unfolding remove_host without bytes_eq
desk_removed = rw read_hosts-write_hosts_example
