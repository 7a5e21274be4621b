-- ===== src/Client/Session.antt =====
-- `StreamSession` of src/client/stream_session.cpp in the build with a renderer and audio: `start`,
-- `stop`, the worker thread that `start` makes and the callbacks of the streaming library. What the
-- library and the window answer is an argument of each step. Both sinks are set, as in the client.
use arcade_launcher_stream_e.Ipc.Server.{equals}
use arcade_launcher_stream_e.Client.StreamConfig.{StreamSettings}
use arcade_launcher_stream_e.Base.{
  ℕ, ◌+◌, ◌-◌, ◌%◌, ◌^◌, Bytes, codes, Bool, true, false, not, ◌&&◌, List, [], ◌∷◌, ◌++◌, leb, ◌==◌,
  if◌then◌else◌, Option, none, some, length, is_empty, ℤ, to_string_ℤ,
}
pub mod Configuration
pub mod Steps
pub mod Invariant
pub mod Safety
pub mod Farewells
pub mod Causes
pub mod Ending
pub mod Stopping
pub mod Logs
pub mod Control
pub mod Events
pub mod Sinks

-- `StateEvent` of src/client/stream_session.h
pub record StateEvent : Type 0 where
  pub phase : Bytes
  pub reason : Bytes
  pub native_window : Bytes

pub record StartInfo : Type 0 where
  pub host : Bytes
  pub server_app_version : Bytes
  pub gfe_version : Bytes
  pub rtsp_session_url : Bytes
  pub server_codec_mode_support : ℤ
  pub settings : StreamSettings
  pub ri_key : Bytes
  pub ri_key_id : ℤ
  pub embed_window : Bool

-- What Limelight.h gives: the names of the stages and the code of a graceful end.
pub record Limelight : Type 0 where
  pub stage_name : ℤ → Bytes
  pub graceful_termination : ℕ

-- Where the worker stands in `run`. A Boolean says whether there is a window; in `closing` and
-- `tearing_down` the first says whether the user has closed it. `reporting` is behind the store of
-- `false` to `running_`, in front of the last event; `finished` is a thread that was not joined.
pub data Worker : Type 0 where
  no_worker : Worker
  opening : StartInfo → Worker
  connecting : StartInfo → Bool → Worker
  streaming : Bool → ℕ → Worker
  closing : Bool → Bool → Worker
  tearing_down : Bool → Bool → Worker
  reporting : Bytes → Bytes → Worker
  finished : Worker

-- The members, the globals `g_sink`, `g_video` and `g_audio` by whether they are set, whether the
-- library holds a connection, whether `create` has made a window with a renderer that was not
-- destroyed, and it is shown, whether a call of `stop` waits for the worker; and the events and the
-- times of the statistics since the last `start`.
pub record Session : Type 0 where
  pub running : Bool
  pub stop_requested : Bool
  pub worker : Worker
  pub sink : Bool
  pub video : Bool
  pub audio : Bool
  pub connected : Bool
  pub window : Bool
  pub shown : Bool
  pub stopping : Bool
  pub events : List StateEvent
  pub stats : List ℕ

abbrev pub new_session : Session
new_session = record {
  running = false;
  stop_requested = false;
  worker = no_worker;
  sink = false;
  video = false;
  audio = false;
  connected = false;
  window = false;
  shown = false;
  stopping = false;
  events = [];
  stats = [];
}

-- An event for the sink, if there is one.
unfoldable pub send : StateEvent → Session → Session
send e s = if s.sink then record s { events = s.events ++ (e ∷ []) } else s

-- `emit`
unfoldable pub emit_state : Bytes → Bytes → Session → Session
unfolding send
emit_state phase reason s = send (record { phase = phase; reason = reason; native_window = [] }) s

-- The calls of the connection listener.
pub data Callback : Type 0 where
  stage_starting : ℤ → Callback
  stage_failed : ℤ → ℤ → Callback
  connection_started : Callback
  connection_terminated : ℤ → Callback

unfoldable pub listen : Limelight → Callback → Session → Session
unfolding emit_state
listen li (stage_starting stage) s = emit_state (codes "connecting") (li.stage_name stage) s
listen li (stage_failed stage code) s =
    emit_state (codes "error")
      (codes "stage '"
        ++ (li.stage_name stage ++ (codes "' failed (code " ++ (to_string_ℤ code ++ codes ")"))))
      s
listen li connection_started s = emit_state (codes "streaming") [] s
listen li (connection_terminated code) s =
    if equals code li.graceful_termination
    then emit_state (codes "ended") (codes "host ended the session") s
    else emit_state (codes "error")
        (codes "connection terminated (code " ++ (to_string_ℤ code ++ codes ")")) s

-- `worker_.joinable()`
abbrev pub joinable : Worker → Bool
joinable no_worker = false
joinable _ = true

-- How `start` ends. The assignment to a `std::thread` that is joinable ends the program.
pub data Start : Type 0 where
  launched : Start
  not_launched : Bytes → Start
  terminates : Start

unfoldable pub start : StartInfo → Session → Start × Session
start info s =
    if s.running
    then (not_launched (codes "a stream is already running"), s)
    else if not (length info.ri_key == 16)
    then (not_launched (codes "remote-input AES key must be 16 bytes"), s)
    else if is_empty info.rtsp_session_url
    then (not_launched (codes "missing RTSP session URL (launch/resume did not complete)"), s)
    else if joinable s.worker
    then (terminates, record s { sink = true; running = true; stop_requested = false })
    else (
      launched,
      record s {
        sink = true;
        running = true;
        stop_requested = false;
        worker = opening info;
        events = [];
        stats = [];
      },
    )

-- The end of `stop`, behind the join
unfoldable pub stop_end : Session → Session
stop_end s = record s { worker = no_worker; running = false; sink = false; stopping = false }

-- The start of `stop`; without a thread to join it goes through to its end.
unfoldable pub stop_begin : Session → Session
unfolding stop_end
stop_begin s =
    if joinable s.worker
    then record s { stop_requested = true; stopping = true }
    else stop_end (record s { stop_requested = true })

-- `run` up to the connection: the window, with its native handle, or none. The event goes to
-- `onState_`.
unfoldable pub prepare : StartInfo → Option Bytes → Session → Session
prepare info none s = record s { worker = connecting info false; audio = true }
prepare info (some handle) s =
    let e : StateEvent = record { phase = codes "window"; reason = []; native_window = handle } in
    record s {
      worker = connecting info true;
      window = true;
      shown = not info.embed_window;
      video = true;
      audio = true;
      events = s.events ++ (e ∷ []);
    }

-- `LiStartConnection` has returned `rc`; `now` is the time at the start of the loop.
unfoldable pub after_connect : Bool → ℤ → ℕ → Session → Session
after_connect have_window rc now s =
    if equals rc 0
    then record s { worker = streaming have_window now; connected = true }
    else record s {
      worker =
          reporting (codes "error")
            (codes "LiStartConnection failed (code " ++ (to_string_ℤ rc ++ codes ")"));
      running = false;
      video = false;
      audio = false;
    }

-- a - b on uint32_t
unfoldable pub elapsed : ℕ → ℕ → ℕ
elapsed now last = (now + 2 ^ 32 - last) % 2 ^ 32

-- One round of the loop: `alive` is what `pump` answers and `now` what `SDL_GetTicks` does.
unfoldable pub loop_round : Bool → ℕ → Bool → ℕ → Session → Session
unfolding elapsed
loop_round have_window last alive now s =
    if s.stop_requested
    then record s { worker = closing false have_window }
    else if have_window && not alive
    then record s { worker = closing true have_window }
    else if leb 1000 (elapsed now last)
    then record s { worker = streaming have_window now; stats = s.stats ++ (now ∷ []) }
    else s

-- `LiStopConnection`
unfoldable pub disconnect : Bool → Bool → Session → Session
disconnect user_closed have_window s = record s {
  worker = tearing_down user_closed have_window;
  connected = false;
}

-- The rest of `run` up to its last event
unfoldable pub tear_down : Bool → Session → Session
tear_down user_closed s = record s {
  worker = if user_closed then reporting (codes "ended") (codes "window closed") else finished;
  video = false;
  audio = false;
  window = false;
  shown = false;
  running = false;
}

-- The last event, and the return, which destroys the window if there still is one
unfoldable pub report : Bytes → Bytes → Session → Session
unfolding emit_state
report phase reason s = record (emit_state phase reason s) {
  worker = finished;
  window = false;
  shown = false;
}
