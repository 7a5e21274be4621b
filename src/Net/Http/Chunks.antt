-- ===== src/Net/Http/Chunks.antt =====
-- Chunks that are sent are put together again.
use arcade_launcher_stream_e.Net.Identity.UniqueId.{hex_number}
use arcade_launcher_stream_e.Net.Xml.{split_before}
use arcade_launcher_stream_e.Net.Http.Sizes.{
  hex_prefix, mod_small, chunk_size-hex_prefix, chunk_size-none,
}
use arcade_launcher_stream_e.Net.Http.Search.{split_before-append}
use arcade_launcher_stream_e.Net.Http.{
  chunk_size, crlf, dechunk_loop, size_limit, dechunk, read_line, ok, take_chunk, split_before,
}
use arcade_launcher_stream_e.Base.{
  ℕ, zero, suc, ◌+◌, ◌<◌, ◌≤◌, Bytes, codes, Bool, true, false, not, ◌&&◌, List, [], ◌∷◌, ◌++◌, ltb,
  leb, ◌==◌, Option, none, some, ◌≡◌, refl, ◌∙◌, inl, inr, arith, length, length-append,
  append_assoc, append-nil, Bool-cases, starts_with, contains, hex_value, take, drop,
  drop-length_append, take-length_append,
}

-- A chunk: its size line, and its bytes.
abbrev pub Chunk : Type 0
Chunk = Bytes × Bytes

abbrev pub is_size : Option ℕ → ℕ → Bool
is_size none n = false
is_size (some k) n = k == n

-- The number of the hexadecimal digits that the line starts with is the length of the chunk, which
-- is not 0, and the line holds no end of a line.
unfoldable pub is_chunk : Chunk → Bool
is_chunk (line, s) =
    is_size (hex_number 0 (hex_prefix line)) (length s)
    && not (length s == 0)
    && not (contains crlf (line ++ (13 ∷ [])))

unfoldable pub are_chunks : List Chunk → Bool
are_chunks [] = true
are_chunks (c ∷ cs) = is_chunk c && are_chunks cs

-- The body of a chunked response: the chunks, each between its line and an end of line, and the
-- last chunk, of size 0.
unfoldable pub chunked : List Chunk → Bytes
chunked [] = codes "0" ++ crlf ++ crlf
chunked ((line, s) ∷ cs) = line ++ (crlf ++ (s ++ (crlf ++ chunked cs)))

unfoldable pub payload : List Chunk → Bytes
payload [] = []
payload ((line, s) ∷ cs) = s ++ payload cs

is_size_eq : (o : Option ℕ) (n : ℕ) → is_size o n ≡ true → o ≡ some n
is_size_eq none n h = cc
is_size_eq (some k) n h = ground arith

chunk_line :
    (line s : Bytes)
    → is_chunk (line, s) ≡ true
    → length s < size_limit
    → (chunk_size none line ≡ some (length s))
      × ((length s == 0) ≡ false)
      × (contains crlf (line ++ (13 ∷ [])) ≡ false)
unfolding is_chunk
chunk_line line s h m =
    let sized = is_size_eq (hex_number 0 (hex_prefix line)) (length s) (ground arith) in
    let size = chunk_size-hex_prefix line 0 (length s) sized m in
    (chunk_size-none line (length s) size (ground arith), ground arith, ground arith)

-- The loop at a position where a chunk of n bytes follows.
loop_chunk :
    (body line tail s : Bytes) (f i n : ℕ) (out : Bytes)
    → leb (length body) i ≡ false
    → split_before crlf (drop i body) ≡ some (line, tail)
    → chunk_size none line ≡ some n
    → (n == 0) ≡ false
    → i + length line + 2 + n + 2 ≤ length body
    → length body < size_limit
    → take n (drop (i + length line + 2) body) ≡ s
    → dechunk_loop body (suc f) i out ≡ dechunk_loop body f (i + length line + 2 + n + 2) (out ++ s)
unfolding dechunk_loop read_line take_chunk
loop_chunk body line tail s f i n out inside found size some_bytes fits m taken =
    let no_wrap = mod_small (i + length line + 2 + n) (omega arith) in
    let no_wrap' = mod_small (i + length line + 2 + n + 2) (omega arith) in
    let enough : ltb (length body) (i + length line + 2 + n) ≡ false = ground arith in
    rw (inside, found, size, some_bytes, no_wrap, enough, no_wrap', taken)

lengths :
    (before line s rest : Bytes)
    → length (before ++ (line ++ (crlf ++ (s ++ (crlf ++ rest)))))
      ≡ length before + length line + 2 + length s + 2 + length rest
lengths before line s rest = omega (
  arith,
  length-append before (line ++ (crlf ++ (s ++ (crlf ++ rest)))),
  length-append line (crlf ++ (s ++ (crlf ++ rest))),
  length-append s (crlf ++ rest),
)

taken_chunk :
    (before line s rest : Bytes)
    → take (length s) (
        drop
          (length before + length line + 2)
          (before ++ (line ++ (crlf ++ (s ++ (crlf ++ rest))))))
      ≡ s
taken_chunk before line s rest =
    let front = before ++ (line ++ crlf) in
    let size : length before + length line + 2 ≡ length front =
      omega (arith, length-append before (line ++ crlf), length-append line crlf) in
    let whole : before ++ (line ++ (crlf ++ (s ++ (crlf ++ rest))))
        ≡ front ++ (s ++ (crlf ++ rest)) =
      simp append_assoc refl in
    rw (size, whole, drop-length_append front (s ++ (crlf ++ rest)))
      (take-length_append s (crlf ++ rest))

round :
    (body before line s rest : Bytes) (f : ℕ) (out : Bytes)
    → body ≡ before ++ (line ++ (crlf ++ (s ++ (crlf ++ rest))))
    → length body < size_limit
    → is_chunk (line, s) ≡ true
    → dechunk_loop body (suc f) (length before) out
      ≡ dechunk_loop body f (length (before ++ (line ++ (crlf ++ (s ++ crlf))))) (out ++ s)
round body before line s rest f out e m h =
    let behind = s ++ (crlf ++ rest) in
    let long : length body ≡ length before + length line + 2 + length s + 2 + length rest =
      rw e (lengths before line s rest) in
    let (size, some_bytes, ended) = chunk_line line s h (omega arith) in
    let at : drop (length before) body ≡ line ++ (crlf ++ behind) =
      rw e (drop-length_append before (line ++ (crlf ++ behind))) in
    let found : split_before crlf (drop (length before) body) ≡ some (line, crlf ++ behind) =
      rw at (split_before-append (13 ∷ []) line behind 10 ended) in
    let next : length (before ++ (line ++ (crlf ++ (s ++ crlf))))
        ≡ length before + length line + 2 + length s + 2 =
      rw append-nil at (lengths before line s []) ∙ omega arith in
    loop_chunk body line (crlf ++ behind) s f (length before) (length s) out (ground arith) found
      size some_bytes (omega arith) m (rw e (taken_chunk before line s rest))
    ∙ rw next

loop_end :
    (body tail : Bytes) (f i : ℕ) (out : Bytes)
    → split_before crlf (drop i body) ≡ some (codes "0", tail)
    → dechunk_loop body (suc f) i out ≡ ok out
unfolding dechunk_loop read_line take_chunk chunk_size hex_value
loop_end body tail f i out found = elim (Bool-cases (leb (length body) i)) [
  | inl e ↦ rw e
  | inr e ↦ rw (e, found)
]

last_round :
    (body before : Bytes) (f : ℕ) (out : Bytes)
    → body ≡ before ++ chunked []
    → dechunk_loop body (suc f) (length before) out ≡ ok out
unfolding chunked
last_round body before f out e = loop_end body (crlf ++ crlf) f (length before) out (
    rw (e, drop-length_append before (codes "0" ++ crlf ++ crlf))
      (unfold split_before starts_with in refl))

dechunk_loop-chunked :
    (body before : Bytes) (cs : List Chunk) (f : ℕ) (out : Bytes)
    → body ≡ before ++ chunked cs
    → length body < size_limit
    → are_chunks cs ≡ true
    → length cs < f
    → dechunk_loop body f (length before) out ≡ ok (out ++ payload cs)
unfolding are_chunks chunked payload
dechunk_loop-chunked body before cs zero out e m h k = elim k [ ]
dechunk_loop-chunked body before [] (suc f) out e m h k =
    last_round body before f out (unfold chunked in e) ∙ rw append-nil
dechunk_loop-chunked body before ((line, s) ∷ cs) (suc f) out e m h k =
    let front = before ++ (line ++ (crlf ++ (s ++ crlf))) in
    round body before line s (chunked cs) f out e m (ground arith)
    ∙ dechunk_loop-chunked body front cs f (out ++ s) (e ∙ simp append_assoc refl) m (ground arith)
        (omega arith)
    ∙ rw append_assoc

-- `dechunk` puts the chunks of a body together, in as many rounds as there are chunks and one more,
-- where every chunk has bytes and a line that starts with their number in hexadecimal digits,
-- whatever extension follows it, and a size_t holds the length of the body.
pub dechunk-chunked :
    (cs : List Chunk) (f : ℕ)
    → are_chunks cs ≡ true
    → length (chunked cs) < size_limit
    → length cs < f
    → dechunk f (chunked cs) ≡ ok (payload cs)
unfolding dechunk
dechunk-chunked cs f h m k = dechunk_loop-chunked (chunked cs) [] cs f [] refl m h k
