-- ===== src/Ipc/Transport.antt =====
-- `ITransport` of src/ipc/transport.h, as its socket implementation in src/ipc/transport_posix.cpp
-- behaves. The peer's side is given in advance: what it sends before it closes the connection, and
-- how many bytes it takes before writing to it fails.
use arcade_launcher_stream_e.Base.{
  ℕ, ◌-◌, Bytes, Bool, true, false, [], ◌++◌, ltb, if◌then◌else◌, Option, none, some, length, take,
  drop,
}

pub record Transport : Type 0 where
  pub incoming : Bytes
  pub outgoing : Bytes
  pub room : ℕ

-- `read_exact`: all n bytes, or `none` once the peer has closed.
unfoldable pub read_exact : ℕ → Transport → Option Bytes × Transport
read_exact n t =
    if ltb (length t.incoming) n
    then (none, record t { incoming = [] })
    else (some (take n t.incoming), record t { incoming = drop n t.incoming })

-- `write_all`: on failure a part may have been sent.
unfoldable pub write_all : Bytes → Transport → Bool × Transport
write_all s t =
    if ltb t.room (length s)
    then (false, record t { outgoing = t.outgoing ++ take t.room s; room = 0 })
    else (true, record t { outgoing = t.outgoing ++ s; room = t.room - length s })
