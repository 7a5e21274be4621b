-- ===== src/Tests/IpcTests.antt =====
-- src/ipc/frame.cpp and src/ipc/server.cpp on a short session.
use arcade_launcher_stream_e.Ipc.Server.Writers.{
  Holder, Writers, Writing, Reachable, InFrames, idle, take_lock, move_bytes, Reachable-InFrames,
}
use arcade_launcher_stream_e.Ipc.Server.Serving.{wires}
use arcade_launcher_stream_e.Ipc.Frame.RoundTrip.{wire}
use arcade_launcher_stream_e.Ipc.Socket.{
  Call, ready, interrupted, read_loop, write_loop, ready_calls, socket-Transport,
}
use arcade_launcher_stream_e.Json.Text.{parse_str, str_loop, str_round}
use arcade_launcher_stream_e.Json.Floats.{prints_whole, is_number_byte}
use arcade_launcher_stream_e.Sample.{small}
use arcade_launcher_stream_e.Json.Dump.{dump, dump_num, escape, escape_byte}
use arcade_launcher_stream_e.Ipc.Server.Handshake.{IsHello, handshake-success_iff}
use arcade_launcher_stream_e.Ipc.Frame.RoundTrip.{wire, read_frame-write_frame}
use arcade_launcher_stream_e.Ipc.Server.Total.{run-ne-out_of_fuel}
use arcade_launcher_stream_e.Json.Parser.{
  parse, parse_result, value, number, number_token, after_number, finish,
}
use arcade_launcher_stream_e.Ipc.Frame.{write_frame, read_frame, header, frame, sent}
use arcade_launcher_stream_e.Ipc.Server.Serving.{serve, wires, after, dumps, run-serve, FitFrames}
use arcade_launcher_stream_e.Ipc.Server.Responses.{
  is_request, Answers, request_id, process-Answers, Replies,
}
use arcade_launcher_stream_e.Json.{
  Value, null, obj, field, num, str, bool, no_fields, find, find_field, set, get_str, set_field,
  get_num, str_or, num_or, push_item, is_object,
}
use arcade_launcher_stream_e.Ipc.Server.{
  Handler, Handlers, process, run, handshake, clean, out_of_fuel, success, hello, response,
  dispatch, find_handler, Reply,
}
use arcade_launcher_stream_e.Ipc.Transport.{Transport, write_all, read_exact}
use arcade_launcher_stream_e.Base.{
  ℕ, suc, ◌≤◌, Bytes, codes, true, List, [], ◌∷◌, ◌++◌, some, ◌≡◌, ◌≢◌, ◌↔◌, refl, arith, length,
  bytes_eq, is_empty, AreBytes, atoi, to_string, to_string_ℤ, bytes_lt, is_space, is_digit, none,
  false,
}

abbrev silent : Transport
silent = record { incoming = []; outgoing = []; room = 1000 }

abbrev request : Bytes
request = codes "{\"kind\":\"req\",\"id\":7,\"method\":\"ping\"}"

-- `ping` counts its calls; any other text is no request.
ping : Handler ℕ
ping params s = (record { result = null; code = []; message = [] }, suc s)

abbrev handlers : Handlers ℕ
handlers = (codes "ping", ping) ∷ []

abbrev session : List Bytes
session = request ∷ codes "junk" ∷ []

abbrev connection : Transport
connection = record { incoming = wires session; outgoing = []; room = 1000 }

abbrev answer : Value
answer = obj (
    field (codes "id") (num 14) (
      field (codes "kind") (str (codes "res"))
        (field (codes "ok") (bool true) (field (codes "result") null no_fields))))

abbrev message : Value
message = obj (
    field (codes "id") (num 14) (
      field (codes "kind") (str (codes "req"))
        (field (codes "method") (str (codes "ping")) no_fields)))

request_parsed : parse request ≡ some message
unfolding small parse parse_result value number number_token after_number is_number_byte parse_str
    str_loop str_round set_field push_item finish bytes_eq bytes_lt is_empty is_space atoi is_digit
request_parsed = refl

message_answered : process handlers (some message) 4 ≡ (some answer, 5)
unfolding small process response dispatch find_handler find find_field get_str get_num str_or num_or
    set set_field bytes_eq bytes_lt is_empty is_object ping
message_answered = refl

process-Answers_example :
    (is_request message ≡ true)
    × ((reply : Reply) × Replies handlers message 4 reply 5
        × Answers (request_id message) reply answer)
process-Answers_example = process-Answers handlers message answer 4 5 message_answered

abbrev calls : ℕ
calls = 4

session_served : serve handlers session 0 ≡ (answer ∷ [], 1)
unfolding serve small parse parse_result value number number_token after_number is_number_byte
    parse_str str_loop str_round set_field push_item finish bytes_eq bytes_lt is_empty is_space atoi
    is_digit process response dispatch find_handler find find_field get_str get_num str_or num_or
    set is_object ping
session_served = refl

answers_fit : FitFrames (dumps (serve handlers session 0).0)
unfolding small dump dump_num prints_whole to_string_ℤ to_string escape escape_byte
answers_fit = rw session_served (omega arith, tt)

answers_room : length (wires (dumps (serve handlers session 0).0)) ≤ 1000
unfolding small dump dump_num prints_whole to_string_ℤ to_string escape escape_byte header
answers_room = rw session_served (omega arith)

run-serve_example : run handlers 3 connection 0 ≡ (
  clean,
  after connection (wires (dumps (serve handlers session 0).0)),
  (serve handlers session 0).1,
)
run-serve_example =
    run-serve handlers session 0 connection 3 (omega arith) refl (omega arith, (omega arith, tt))
      answers_fit answers_room

run-ne-out_of_fuel_example : (run handlers 100 connection 0).0 ≢ out_of_fuel
run-ne-out_of_fuel_example =
    run-ne-out_of_fuel handlers 100 connection 0 (unfold header in omega arith)

abbrev written : Transport
written = record { incoming = []; outgoing = wire (codes "hi"); room = 994 }

hi_written : write_frame (codes "hi") silent ≡ (sent, written)
unfolding write_frame write_all header
hi_written = refl

abbrev incoming_hi : Transport
incoming_hi = record { incoming = wire (codes "hi") ++ codes "rest"; outgoing = []; room = 0 }

abbrev rest_of_hi : Transport
rest_of_hi = record { incoming = codes "rest"; outgoing = []; room = 0 }

read_frame-write_frame_example : read_frame incoming_hi ≡ (frame (codes "hi"), rest_of_hi)
read_frame-write_frame_example =
    read_frame-write_frame (codes "hi") (codes "rest") silent written incoming_hi hi_written refl

hi_bytes : AreBytes incoming_hi.incoming
unfolding header
hi_bytes = (
  omega arith,
  (
    omega arith,
    (
      omega arith,
      (
        omega arith,
        (
          omega arith,
          (omega arith, (omega arith, (omega arith, (omega arith, (omega arith, tt))))),
        ),
      ),
    ),
  ),
)

abbrev peer : Value
peer =
    obj (
      field (codes "kind") (str (codes "hello"))
        (field (codes "protocolVersion") (num 2) no_fields))

abbrev peer_text : Bytes
peer_text = codes "{\"kind\":\"hello\",\"protocolVersion\":1}"

peer_parsed : parse peer_text ≡ some peer
unfolding small parse parse_result value number number_token after_number is_number_byte parse_str
    str_loop str_round set_field push_item finish bytes_eq bytes_lt is_empty is_space atoi is_digit
peer_parsed = refl

abbrev greeted : Transport
greeted = record { incoming = wire peer_text ++ []; outgoing = []; room = 1000 }

handshake-success_iff_example : ((handshake (codes "1.0") greeted).0 ≡ success) ↔ IsHello peer
handshake-success_iff_example =
    handshake-success_iff (codes "1.0") peer_text [] peer greeted
      (unfold small dump dump_num prints_whole to_string_ℤ to_string escape escape_byte hello set
          set_field bytes_eq bytes_lt in
        omega arith)
      (unfold small dump dump_num prints_whole to_string_ℤ to_string escape escape_byte hello set
          set_field bytes_eq bytes_lt header in
        omega arith)
      refl (omega arith) peer_parsed

-- Two bytes are read and three written with a signal in between.
abbrev socket_calls : List Call
socket_calls = ready 0 ∷ interrupted ∷ ready 5 ∷ ready 0 ∷ []

abbrev socket : Transport
socket = record { incoming = codes "abc"; outgoing = []; room = 2 }

socket-Transport_example :
    (read_loop socket_calls 2 [] socket ≡ some (read_exact 2 socket))
    × (write_loop socket_calls (codes "xyz") socket ≡ some (write_all (codes "xyz") socket))
socket-Transport_example =
    socket-Transport socket_calls 2 (codes "xyz") socket (unfold ready_calls in omega arith)
      (unfold ready_calls in omega arith)

-- One frame goes out in two pieces.
abbrev held : Holder
held = record { payload = codes "a"; left = wire (codes "a") }

abbrev half_written : Writers
half_written = move_bytes 3 held (take_lock (codes "a") idle)

half_written-Reachable : Reachable half_written
unfolding take_lock
half_written-Reachable =
    Reachable.after
      (Reachable.after (Reachable.initial refl)
        (Writing.begins (codes "a") refl (omega arith) refl))
      (Writing.moves 3 held refl refl refl)

Reachable-InFrames_example :
    InFrames half_written
    × (half_written.holder ≡ none
        → half_written.failed ≡ false
        → half_written.outgoing ≡ wires half_written.whole)
Reachable-InFrames_example = Reachable-InFrames half_written-Reachable
