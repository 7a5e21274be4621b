-- ===== src/Client/Session/Steps.antt =====
-- The steps of a session in any interleaving: the control thread calls `start` and `stop`, the
-- worker goes on in `run`, and the library calls back while it connects or is connected.
use arcade_launcher_stream_e.Base.{
  ℕ, zero, suc, Bytes, Bool, true, false, ◌||◌, if◌then◌else◌, Option, ◌≡◌, ◌≢◌, ℤ,
}
use arcade_launcher_stream_e.Client.Session.{
  Worker, Limelight, connecting, Session, StartInfo, Callback, new_session, opening, listen,
  prepare, start, after_connect, terminates, streaming, stop_begin, loop_round, finished, closing,
  stop_end, disconnect, tearing_down, tear_down, reporting, report, no_worker, joinable,
}

abbrev pub is_connecting : Worker → Bool
is_connecting (connecting _ _) = true
is_connecting _ = false

module _ (li : Limelight) (s : Session) (t : Session) where
  -- A step of the worker.
  pub data WorkerStep : Type 0 where
    prepares :
        (info : StartInfo) (handle : Option Bytes)
        → s.worker ≡ opening info
        → t ≡ prepare info handle s
        → WorkerStep
    connects :
        (info : StartInfo) (have_window : Bool) (rc : ℤ) (now : ℕ)
        → s.worker ≡ connecting info have_window
        → t ≡ after_connect have_window rc now s
        → WorkerStep
    loops :
        (have_window : Bool) (last : ℕ) (alive : Bool) (now : ℕ)
        → s.worker ≡ streaming have_window last
        → t ≡ loop_round have_window last alive now s
        → WorkerStep
    disconnects :
        (user_closed have_window : Bool)
        → s.worker ≡ closing user_closed have_window
        → t ≡ disconnect user_closed have_window s
        → WorkerStep
    tears_down :
        (user_closed have_window : Bool)
        → s.worker ≡ tearing_down user_closed have_window
        → t ≡ tear_down user_closed s
        → WorkerStep
    reports :
        (phase reason : Bytes)
        → s.worker ≡ reporting phase reason
        → t ≡ report phase reason s
        → WorkerStep

  -- The library calls while `LiStartConnection` runs, and while it holds a connection.
  abbrev pub may_call : Bool
  may_call = is_connecting s.worker || s.connected

  pub data Step : Type 0 where
    works : WorkerStep → Step
    calls : (c : Callback) → may_call ≡ true → t ≡ listen li c s → Step
    -- a `start` that does not end the program
    starts :
        (info : StartInfo)
        → s.stopping ≡ false
        → (start info s).0 ≢ terminates
        → t ≡ (start info s).1
        → Step
    stops : s.stopping ≡ false → t ≡ stop_begin s → Step
    joins : s.stopping ≡ true → s.worker ≡ finished → t ≡ stop_end s → Step

pub data Reachable (li : Limelight) : Session → Type 0 where
  initial : {s : Session} → s ≡ new_session → Reachable li s
  after : {s t : Session} → Reachable li s → Step li s t → Reachable li t

-- What the calls of the worker answer while it is asked to stop.
pub record Answers : Type 0 where
  pub handle : Option Bytes
  pub rc : ℤ
  pub alive : Bool
  pub now : ℕ

-- One step of the worker at its place
unfoldable pub run_at : Answers → Worker → Session → Session
run_at a no_worker s = s
run_at a finished s = s
run_at a (opening info) s = prepare info a.handle s
run_at a (connecting info w) s = after_connect w a.rc a.now s
run_at a (streaming w last) s = loop_round w last a.alive a.now s
run_at a (closing u w) s = disconnect u w s
run_at a (tearing_down u w) s = tear_down u s
run_at a (reporting phase reason) s = report phase reason s

unfoldable pub run_steps : ℕ → Answers → Session → Session
unfolding run_at
run_steps zero a s = s
run_steps (suc n) a s = run_steps n a (run_at a s.worker s)

-- `stop` as a whole, if the library does not call back while it waits: such a call only adds an
-- event. Six steps are enough for the worker.
unfoldable pub stop_session : Answers → Session → Session
unfolding run_steps
stop_session a s =
    if joinable s.worker then stop_end (run_steps 6 a (stop_begin s)) else stop_begin s
