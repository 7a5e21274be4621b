-- ===== src/Ipc/Server.antt =====
-- `Server` of src/ipc/server.cpp, with the constants of src/ipc/ipc.h. A handler is a function of
-- the program's state `S`; `err` is empty when `handshake` and `run` start, as in both callers.
pub mod Responses
pub mod Serving
pub mod Writers
pub mod Total
pub mod Handshake
use arcade_launcher_stream_e.Base.{
  ℕ, zero, suc, Bytes, codes, Bool, true, false, not, List, [], ◌∷◌, ◌++◌, ◌==◌, if◌then◌else◌,
  Option, none, some, bytes_eq, is_empty, ℤ, pos, negsuc, to_string, to_string_ℤ,
}
use arcade_launcher_stream_e.Ipc.Transport.{Transport}
use arcade_launcher_stream_e.Ipc.Frame.{
  write_frame, read_frame, Written, sent, unsent, Read, frame, closed, broken,
}
use arcade_launcher_stream_e.Json.{
  Value, null, bool, num, str, obj, no_fields, set, find, get_str, get_num, is_object,
}
use arcade_launcher_stream_e.Json.Floats.{Floats}
use arcade_launcher_stream_e.Json.Dump.{dump}
use arcade_launcher_stream_e.Json.Parser.{parse}

-- What a handler leaves: its result, `errCode` and `errMsg`.
pub record Reply : Type 0 where
  pub result : Value
  pub code : Bytes
  pub message : Bytes

abbrev pub Handler : Type 0 → Type 0
Handler S = Value → S → Reply × S

-- `handlers_`, a std::map from method names
abbrev pub Handlers : Type 0 → Type 0
Handlers S = List (Bytes × Handler S)

abbrev pub protocol_version : ℕ
protocol_version = 1

-- the number that `Value::number` makes of an unsigned integer
abbrev pub number_of : ⦃fl : Floats⦄ → ℕ → Value
number_of ⦃fl⦄ n = num (fl.of_ℤ (pos n))

abbrev pub empty_object : Value
empty_object = obj no_fields

-- `on`
unfoldable pub on : {S : Type 0} → Handlers S → Bytes → Handler S → Handlers S
on [] m h = (m, h) ∷ []
on ((k, g) ∷ hs) m h = if bytes_eq k m then (k, h) ∷ hs else (k, g) ∷ on hs m h

-- `handlers_.find`
unfoldable pub find_handler : {S : Type 0} → Handlers S → Bytes → Option (Handler S)
find_handler [] m = none
find_handler ((k, h) ∷ hs) m = if bytes_eq k m then some h else find_handler hs m

-- The frame that `handshake` sends; `version` is ENGINE_VERSION.
unfoldable pub hello : ⦃fl : Floats⦄ → Bytes → Value
hello version =
    set
      (set (set empty_object (codes "kind") (str (codes "hello"))) (codes "protocolVersion")
        (number_of protocol_version))
      (codes "engineVersion") (str version)

abbrev pub equals : ℤ → ℕ → Bool
equals (pos n) k = n == k
equals (negsuc n) k = false

pub data Outcome : Type 0 where
  success : Outcome
  failure : Bytes → Outcome

-- What `handshake` makes of the frame that the peer sent.
unfoldable pub check_peer : ⦃fl : Floats⦄ → Option Value → Outcome
check_peer none = failure (codes "malformed handshake frame")
check_peer ⦃fl⦄ (some peer) =
    let kind = get_str peer (codes "kind") [] in
    let version = fl.to_int (get_num peer (codes "protocolVersion") (fl.of_ℤ (negsuc 0))) in
    if not (is_object peer)
    then failure (codes "malformed handshake frame")
    else if not (bytes_eq kind (codes "hello"))
    then failure (codes "expected hello, got '" ++ (kind ++ codes "'"))
    else if not (equals version protocol_version)
    then failure (
        codes "protocol version mismatch (engine "
        ++ (to_string protocol_version
            ++ (codes ", launcher " ++ (to_string_ℤ version ++ codes ")"))))
    else success

unfoldable pub handshake_read : ⦃fl : Floats⦄ → Read × Transport → Outcome × Transport
handshake_read (frame raw, t) = (check_peer (parse raw), t)
handshake_read (closed, t) = (failure (codes "connection closed before handshake"), t)
handshake_read (broken err, t) = (failure err, t)

unfoldable pub handshake_written : ⦃fl : Floats⦄ → Written × Transport → Outcome × Transport
unfolding handshake_read
handshake_written (sent, t) = handshake_read (read_frame t)
handshake_written (unsent err, t) = (failure err, t)

unfoldable pub handshake : ⦃fl : Floats⦄ → Bytes → Transport → Outcome × Transport
unfolding handshake_written
handshake version t = handshake_written (write_frame (dump (hello version)) t)

-- `emit`: an event frame; what goes wrong is ignored.
unfoldable pub event_frame : Bytes → Value → Value
event_frame event payload =
    set (set (set empty_object (codes "kind") (str (codes "event"))) (codes "event") (str event))
      (codes "data") payload

unfoldable pub emit : ⦃fl : Floats⦄ → Bytes → Value → Transport → Transport
emit event payload t = (write_frame (dump (event_frame event payload)) t).1

-- The `res` frame for a request with this id.
unfoldable pub response : ⦃fl : Floats⦄ → ℕ → Reply → Value
response id reply =
    let base =
      set (set empty_object (codes "kind") (str (codes "res"))) (codes "id") (number_of id) in
    let error =
      set (set empty_object (codes "code") (str reply.code)) (codes "message")
        (str reply.message) in
    if is_empty reply.code
    then set (set base (codes "ok") (bool true)) (codes "result") reply.result
    else set (set base (codes "ok") (bool false)) (codes "error") error

-- The handler's call, or the error of an unknown method.
unfoldable pub dispatch : {S : Type 0} → Option (Handler S) → Bytes → Value → S → Reply × S
dispatch none method params s = (
  record {
    result = null;
    code = codes "unsupported_method";
    message = codes "unknown method: " ++ method;
  },
  s,
)
dispatch (some h) method params s = h params s

abbrev pub params_of : Option Value → Value
params_of none = empty_object
params_of (some v) = v

-- One message of the loop of `run`: the answer, if it is a request, and the new state.
unfoldable pub process :
    ⦃fl : Floats⦄ → {S : Type 0} → Handlers S → Option Value → S → Option Value × S
process hs none s = (none, s)
process ⦃fl⦄ hs (some msg) s =
    let method = get_str msg (codes "method") [] in
    let (reply, s') =
      dispatch (find_handler hs method) method (params_of (find msg (codes "params"))) s in
    let id = fl.to_u64 (get_num msg (codes "id") (fl.of_ℤ (pos 0))) in
    if not (is_object msg)
    then (none, s)
    else if not (bytes_eq (get_str msg (codes "kind") []) (codes "req"))
    then (none, s)
    else (some (response id reply), s')

-- How `run` ends; `out_of_fuel` has no counterpart in the program.
pub data Finish : Type 0 where
  clean out_of_fuel : Finish
  error : Bytes → Finish

module _ ⦃fl : Floats⦄ {S : Type 0} (hs : Handlers S) where
  -- The rest of the loop is handed in.
  unfoldable pub after_write :
      (Transport → S → Finish × Transport × S) → S → Written × Transport → Finish × Transport × S
  after_write loop s (sent, t) = loop t s
  after_write loop s (unsent err, t) = (error err, t, s)

  unfoldable pub after_process :
      (Transport → S → Finish × Transport × S)
      → Transport
      → Option Value × S
      → Finish × Transport × S
  unfolding after_write
  after_process loop t (none, s) = loop t s
  after_process loop t (some res, s) = after_write loop s (write_frame (dump res) t)

  unfoldable pub after_read :
      (Transport → S → Finish × Transport × S) → S → Read × Transport → Finish × Transport × S
  unfolding after_process
  after_read loop s (closed, t) = (clean, t, s)
  after_read loop s (broken err, t) = (error err, t, s)
  after_read loop s (frame raw, t) = after_process loop t (process hs (parse raw) s)

  -- `run`, with fuel for its rounds
  unfoldable pub run : ℕ → Transport → S → Finish × Transport × S
  unfolding after_read
  run zero t s = (out_of_fuel, t, s)
  run (suc f) t s = after_read (λ t' s'. run f t' s') s (read_frame t)
