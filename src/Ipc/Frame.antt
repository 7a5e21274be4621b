-- ===== src/Ipc/Frame.antt =====
-- src/ipc/frame.cpp: a frame is a 4-byte little-endian length and that many bytes.
use arcade_launcher_stream_e.Base.{
  ℕ, ◌+◌, ◌*◌, ◌/◌, ◌%◌, Bytes, codes, Bool, true, false, [], ◌∷◌, ltb, ◌==◌, if◌then◌else◌, Option,
  none, some, length,
}
pub mod RoundTrip
pub mod Effects
use arcade_launcher_stream_e.Ipc.Transport.{Transport, read_exact, write_all}

-- kMaxFrame, 8 MiB
abbrev pub max_frame : ℕ
max_frame = 8_388_608

-- the bytes of `n`, a uint32_t
unfoldable pub header : ℕ → Bytes
header n = n % 256 ∷ n / 256 % 256 ∷ n / 65536 % 256 ∷ n / 16777216 % 256 ∷ []

-- The number that four header bytes spell.
unfoldable pub header_value : Bytes → ℕ
header_value (a ∷ b ∷ c ∷ d ∷ _) = a + b * 256 + c * 65536 + d * 16777216
header_value _ = 0

-- `write_frame`, with the error text that it sets.
pub data Written : Type 0 where
  sent : Written
  unsent : Bytes → Written

-- The body is written unless it is empty.
write_body : Bytes → Bool × Transport → Written × Transport
write_body payload (false, t) = (unsent (codes "write frame header failed"), t)
write_body [] (true, t) = (sent, t)
write_body (c ∷ s) (true, t) =
    let (written, t') = write_all (c ∷ s) t in
    (if written then sent else unsent (codes "write frame body failed"), t')

unfoldable pub write_frame : Bytes → Transport → Written × Transport
unfolding write_body
write_frame payload t =
    if ltb max_frame (length payload)
    then (unsent (codes "frame exceeds 8 MiB cap"), t)
    else write_body payload (write_all (header (length payload)) t)

-- `read_frame`: a frame, a close before a header (`err` stays empty), or an error text.
pub data Read : Type 0 where
  frame : Bytes → Read
  closed : Read
  broken : Bytes → Read

read_body : Option Bytes × Transport → Read × Transport
read_body (some s, t) = (frame s, t)
read_body (none, t) = (broken (codes "truncated frame body"), t)

read_sized : ℕ → Transport → Read × Transport
unfolding read_body
read_sized n t =
    if ltb max_frame n
    then (broken (codes "incoming frame exceeds 8 MiB cap"), t)
    else if n == 0
    then (frame [], t)
    else read_body (read_exact n t)

read_header : Option Bytes × Transport → Read × Transport
unfolding read_sized
read_header (none, t) = (closed, t)
read_header (some hdr, t) = read_sized (header_value hdr) t

unfoldable pub read_frame : Transport → Read × Transport
unfolding read_header
read_frame t = read_header (read_exact 4 t)
