-- ===== src/Client/Session/Invariant.antt =====
-- What holds of a session in every reachable state.
use arcade_launcher_stream_e.Client.Session.Steps.{
  WorkerStep, Step, Reachable, prepares, works, initial, connects, calls, after, loops, starts,
  disconnects, stops, tears_down, joins, reports,
}
use arcade_launcher_stream_e.Client.Session.{
  Worker, Session, opening, connecting, streaming, joinable, send, listen, start, stop_begin,
  stop_end, closing, no_worker, StateEvent, Limelight, StartInfo, finished, tearing_down, Callback,
  terminates, stage_starting, stage_failed, connection_terminated, equals, connection_started,
  prepare, after_connect, loop_round, disconnect, tear_down, report, new_session, reporting,
}
use arcade_launcher_stream_e.Base.{
  ℕ, Bytes, codes, Bool, true, false, not, ◌&&◌, ◌||◌, Option, none, some, ◌≡◌, ◌≢◌, refl, inl, inr,
  arith, Bool-cases, bytes_eq, ℤ,
}

-- `run` has not stored `false` to `running_`.
abbrev pub is_live : Worker → Bool
is_live (opening _) = true
is_live (connecting _ _) = true
is_live (streaming _ _) = true
is_live (closing _ _) = true
is_live (tearing_down _ _) = true
is_live _ = false

-- There is a renderer on the stack of `run` that the callbacks may use.
abbrev pub renders : Worker → Bool
renders (connecting _ w) = w
renders (streaming w _) = w
renders (closing _ w) = w
renders (tearing_down _ w) = w
renders _ = false

abbrev pub plays : Worker → Bool
plays (connecting _ _) = true
plays (streaming _ _) = true
plays (closing _ _) = true
plays (tearing_down _ _) = true
plays _ = false

abbrev pub is_connected : Worker → Bool
is_connected (streaming _ _) = true
is_connected (closing _ _) = true
is_connected _ = false

-- The thread has not returned from `run`.
abbrev pub in_run : Worker → Bool
in_run no_worker = false
in_run finished = false
in_run _ = true

-- The last event of `run` is not about a window.
abbrev pub ends_without_window : Worker → Bool
ends_without_window (reporting phase reason) = not (bytes_eq phase (codes "window"))
ends_without_window _ = true

pub record Consistent (s : Session) : Type 0 where
  pub live : s.running ≡ is_live s.worker
  pub rendering : s.video ≡ renders s.worker
  pub playing : s.audio ≡ plays s.worker
  pub connection : s.connected ≡ is_connected s.worker
  pub sinks : s.sink ≡ joinable s.worker
  pub windowed : (s.window || in_run s.worker) ≡ in_run s.worker
  pub asked : (s.stopping && not s.stop_requested) ≡ false
  pub waits : (s.stopping && not (joinable s.worker)) ≡ false
  pub last_event : ends_without_window s.worker ≡ true

module _ (s : Session) (c : Consistent s) where
  send-Consistent : (e : StateEvent) → Consistent (send e s)
  unfolding send
  send-Consistent e = ground arith

  listen-Consistent : (li : Limelight) (k : Callback) → Consistent (listen li k s)
  unfolding listen
  listen-Consistent li (stage_starting stage) = send-Consistent _
  listen-Consistent li (stage_failed stage code) = send-Consistent _
  listen-Consistent li connection_started = send-Consistent _
  listen-Consistent li (connection_terminated code) =
      elim (Bool-cases (equals code li.graceful_termination)) [
        | inl e ↦ rw e (send-Consistent _)
        | inr e ↦ rw e (send-Consistent _)
      ]

  start-Consistent :
      (info : StartInfo)
      → s.stopping ≡ false
      → (start info s).0 ≢ terminates
      → Consistent (start info s).1
  unfolding start
  start-Consistent info h n = ground arith

  stop_begin-Consistent : s.stopping ≡ false → Consistent (stop_begin s)
  unfolding stop_begin
  stop_begin-Consistent h = ground arith

  stop_end-Consistent : s.worker ≡ finished → Consistent (stop_end s)
  unfolding stop_end
  stop_end-Consistent h = ground arith

  prepare-Consistent :
      (info : StartInfo) (handle : Option Bytes)
      → s.worker ≡ opening info
      → Consistent (prepare info handle s)
  unfolding prepare
  prepare-Consistent info none h = ground arith
  prepare-Consistent info (some handle) h = ground arith

  after_connect-Consistent :
      (info : StartInfo) (have_window : Bool) (rc : ℤ) (now : ℕ)
      → s.worker ≡ connecting info have_window
      → Consistent (after_connect have_window rc now s)
  unfolding after_connect bytes_eq
  after_connect-Consistent info have_window rc now h = ground arith

  loop_round-Consistent :
      (have_window : Bool) (last : ℕ) (alive : Bool) (now : ℕ)
      → s.worker ≡ streaming have_window last
      → Consistent (loop_round have_window last alive now s)
  unfolding loop_round
  loop_round-Consistent have_window last alive now h = ground arith

  disconnect-Consistent :
      (user_closed have_window : Bool)
      → s.worker ≡ closing user_closed have_window
      → Consistent (disconnect user_closed have_window s)
  unfolding disconnect
  disconnect-Consistent user_closed have_window h = ground arith

  tear_down-Consistent :
      (user_closed have_window : Bool)
      → s.worker ≡ tearing_down user_closed have_window
      → Consistent (tear_down user_closed s)
  unfolding tear_down bytes_eq
  tear_down-Consistent user_closed have_window h = ground arith

  report-Consistent :
      (phase reason : Bytes)
      → s.worker ≡ reporting phase reason
      → Consistent (report phase reason s)
  unfolding report
  report-Consistent phase reason h = ground arith

module _ (li : Limelight) {s t : Session} where
  WorkerStep-Consistent : Consistent s → WorkerStep li s t → Consistent t
  WorkerStep-Consistent c (prepares info handle h e) = rw e (prepare-Consistent s c info handle h)
  WorkerStep-Consistent c (connects info w rc now h e) =
      rw e (after_connect-Consistent s c info w rc now h)
  WorkerStep-Consistent c (loops w last alive now h e) =
      rw e (loop_round-Consistent s c w last alive now h)
  WorkerStep-Consistent c (disconnects u w h e) = rw e (disconnect-Consistent s c u w h)
  WorkerStep-Consistent c (tears_down u w h e) = rw e (tear_down-Consistent s c u w h)
  WorkerStep-Consistent c (reports phase reason h e) = rw e (report-Consistent s c phase reason h)

  Step-Consistent : Consistent s → Step li s t → Consistent t
  Step-Consistent c (works w) = WorkerStep-Consistent c w
  Step-Consistent c (calls k h e) = rw e (listen-Consistent s c li k)
  Step-Consistent c (starts info h n e) = rw e (start-Consistent s c info h n)
  Step-Consistent c (stops h e) = rw e (stop_begin-Consistent s c h)
  Step-Consistent c (joins h f e) = rw e (stop_end-Consistent s c f)

new_session-Consistent : Consistent new_session
new_session-Consistent = record {
  live = refl;
  rendering = refl;
  playing = refl;
  connection = refl;
  sinks = refl;
  windowed = refl;
  asked = refl;
  waits = refl;
  last_event = refl;
}

-- In every reachable state `running_` tells whether the worker has yet to store `false`, the globals
-- point to a renderer, an audio renderer and a sink exactly while these are there, the library holds
-- a connection exactly while the worker streams or closes, a window exists only inside of `run`, and
-- a call of `stop` that waits has asked for the end and has a thread to join.
pub Reachable-Consistent : (li : Limelight) {s : Session} → Reachable li s → Consistent s
Reachable-Consistent li (initial e) = rw e new_session-Consistent
Reachable-Consistent li (after r step) = Step-Consistent li (Reachable-Consistent li r) step
