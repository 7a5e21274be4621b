-- ===== src/Ipc/Connect.antt =====
-- `socket_path` and `connect_local` of src/ipc/transport_posix.cpp. What the system answers, and the
-- size of `sun_path`, are arguments.
use arcade_launcher_stream_e.Ipc.Transport.{Transport}
use arcade_launcher_stream_e.Base.{
  ℕ, ◌<◌, Bytes, codes, Bool, true, ◌++◌, ltb, if◌then◌else◌, not, Option, none, some, ◌≡◌, ◌↔◌,
  arith, length, is_empty, Option-cases, inl, inr,
}

-- The value of XDG_RUNTIME_DIR, if it is set and not empty
abbrev pub runtime_dir : Option Bytes → Bytes
runtime_dir none = codes "/tmp"
runtime_dir (some dir) = if is_empty dir then codes "/tmp" else dir

unfoldable pub socket_path : Option Bytes → Bytes → Bytes
socket_path runtime token =
    runtime_dir runtime ++ (codes "/arcade-stream-engine-" ++ (token ++ codes ".sock"))

-- Whether `socket` succeeds, what `connect` leads to, and the text of the error.
pub record Answers : Type 0 where
  pub opens : Bool
  pub peer : Option Transport
  pub error : Bytes

pub data Connected : Type 0 where
  connected : Transport → Connected
  not_connected : Bytes → Connected

abbrev pub on_connect : Answers → Bytes → Option Transport → Connected
on_connect a path (some t) = connected t
on_connect a path none =
    not_connected (codes "failed to connect to " ++ (path ++ (codes ": " ++ a.error)))

unfoldable pub connect_local : ℕ → Answers → Option Bytes → Bytes → Connected
unfolding socket_path
connect_local path_size a runtime token =
    let path = socket_path runtime token in
    if not a.opens
    then not_connected (codes "socket() failed: " ++ a.error)
    else if not (ltb (length path) path_size)
    then not_connected (codes "socket path too long: " ++ path)
    else on_connect a path a.peer

-- There is a connection exactly when the system gives a socket, the path fits with its zero, and the
-- peer is there; then it is the one to that peer.
pub connect_local-connected_iff :
    (path_size : ℕ) (a : Answers) (runtime : Option Bytes) (token : Bytes) (t : Transport)
    → (connect_local path_size a runtime token ≡ connected t)
      ↔ ((a.opens ≡ true) × (length (socket_path runtime token) < path_size) × (a.peer ≡ some t))
unfolding connect_local
connect_local-connected_iff path_size a runtime token t = elim (Option-cases a.peer) [
  | inl e ↦ rw e (ground arith)
  | inr (u, e) ↦ rw e (ground arith)
]
