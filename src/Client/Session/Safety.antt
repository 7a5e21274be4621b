-- ===== src/Client/Session/Safety.antt =====
-- What `start` and `stop` promise in reachable states, and that `stop` comes to its end.
use arcade_launcher_stream_e.Client.Session.Invariant.{Consistent, Reachable-Consistent, is_live}
use arcade_launcher_stream_e.Client.Session.Steps.{
  Reachable, WorkerStep, prepares, connects, loops, disconnects, tears_down, reports,
}
use arcade_launcher_stream_e.Client.Session.{
  StartInfo, Session, stop_begin, start, Worker, prepare, no_worker, stop_end, Limelight, reporting,
  after_connect, tearing_down, loop_round, finished, launched, terminates, closing, disconnect,
  joinable, streaming, tear_down, connecting, report, opening, emit_state, send, not_launched,
}
use arcade_launcher_stream_e.Base.{
  ℕ, ◌<◌, Bytes, Bool, true, false, not, ◌&&◌, ◌==◌, none, some, ◌≡◌, ◌↔◌, arith, length, is_empty,
}

-- What `start` asks of its argument.
abbrev pub usable : StartInfo → Bool
usable info = (length info.ri_key == 16) && not (is_empty info.rtsp_session_url)

-- Nothing of a stream is left: no thread, no connection, no window, and no global is set.
pub record Quiet (s : Session) : Type 0 where
  pub no_thread : s.worker ≡ no_worker
  pub not_running : s.running ≡ false
  pub no_sink : s.sink ≡ false
  pub no_video : s.video ≡ false
  pub no_audio : s.audio ≡ false
  pub no_connection : s.connected ≡ false
  pub no_window : s.window ≡ false

-- When `stop` returns, the session is quiet: at once if there is no thread to join, and else behind
-- the join of the thread that has returned.
pub stop-Quiet :
    (li : Limelight) {s : Session}
    → Reachable li s
    → (s.worker ≡ no_worker → Quiet (stop_begin s)) × (s.worker ≡ finished → Quiet (stop_end s))
unfolding stop_begin stop_end
stop-Quiet li {s} r = from (Reachable-Consistent li r)
  where
    from :
        Consistent s
        → (s.worker ≡ no_worker → Quiet (stop_begin s)) × (s.worker ≡ finished → Quiet (stop_end s))
    from c = (λ h. ground arith, λ h. ground arith)

-- After `stop`, a session can be started with a usable request: the worker is made for it, with the
-- events of an earlier stream gone and the request to stop withdrawn.
pub start-launched_iff :
    (li : Limelight) (info : StartInfo) {s : Session}
    → Reachable li s
    → ((start info s).0 ≡ launched) ↔ ((usable info ≡ true) × (s.worker ≡ no_worker))
unfolding start
start-launched_iff li info {s} r = from (Reachable-Consistent li r)
  where
    from :
        Consistent s
        → ((start info s).0 ≡ launched) ↔ ((usable info ≡ true) × (s.worker ≡ no_worker))
    from c = ground arith

-- A usable request ends the program exactly when there is a thread to join that has stored `false` to
-- `running_`.
pub start-terminates_dead :
    (li : Limelight) (info : StartInfo) {s : Session}
    → Reachable li s
    → ((start info s).0 ≡ terminates)
      ↔ ((usable info ≡ true) × (joinable s.worker ≡ true) × (is_live s.worker ≡ false))
unfolding start
start-terminates_dead li info {s} r = from (Reachable-Consistent li r)
  where
    from :
        Consistent s
        → ((start info s).0 ≡ terminates)
          ↔ ((usable info ≡ true) × (joinable s.worker ≡ true) × (is_live s.worker ≡ false))
    from c = ground arith

-- The steps that the worker has still to make once it is asked to stop
unfoldable pub steps_left : Worker → ℕ
steps_left no_worker = 0
steps_left finished = 0
steps_left (reporting _ _) = 1
steps_left (tearing_down _ _) = 2
steps_left (closing _ _) = 3
steps_left (streaming _ _) = 4
steps_left (connecting _ _) = 5
steps_left (opening _) = 6

-- Once the worker is asked to stop, each of its steps brings it nearer to its end.
pub steps_left-lt :
    (li : Limelight) {s t : Session}
    → s.stop_requested ≡ true
    → WorkerStep li s t
    → (steps_left t.worker < steps_left s.worker) × (t.stop_requested ≡ true)
unfolding steps_left prepare after_connect loop_round disconnect tear_down report emit_state send
steps_left-lt li q (prepares info none h e) = ground arith
steps_left-lt li q (prepares info (some handle) h e) = ground arith
steps_left-lt li q (connects info w rc now h e) = ground arith
steps_left-lt li q (loops w last alive now h e) = ground arith
steps_left-lt li q (disconnects u w h e) = ground arith
steps_left-lt li q (tears_down u w h e) = ground arith
steps_left-lt li q (reports phase reason h e) = ground arith

-- A start that launches makes the worker for its request.
pub start-opening :
    (info : StartInfo) (s : Session)
    → (start info s).0 ≡ launched
    → (start info s).1.worker ≡ opening info
unfolding start
start-opening info s h = ground arith

-- A start that is refused changes nothing.
pub start-same :
    (info : StartInfo) (s : Session) (err : Bytes)
    → (start info s).0 ≡ not_launched err
    → (start info s).1 ≡ s
unfolding start
start-same info s err h = ground arith
