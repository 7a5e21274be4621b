-- ===== src/Tests/SessionTests.antt =====
-- src/client/stream_session.cpp: a stream that is stopped, and one that ends by itself.
use arcade_launcher_stream_e.Client.Session.Configuration.{
  make_ri_key_id, aes_iv, aes_iv-make_ri_key_id,
}
use arcade_launcher_stream_e.Client.Session.Ending.{Waiting, stop-ends}
use arcade_launcher_stream_e.Client.Session.Invariant.{Consistent, Reachable-Consistent}
use arcade_launcher_stream_e.Client.Session.Safety.{Quiet}
use arcade_launcher_stream_e.Client.Session.Steps.{
  Answers, Reachable, Step, WorkerStep, stop_session,
}
use arcade_launcher_stream_e.Client.Session.Stopping.{stop_session-Quiet}
use arcade_launcher_stream_e.Client.Session.{
  Limelight, Session, StartInfo, new_session, start, launched, terminates, prepare, after_connect,
  loop_round, stop_begin, report, finished, Worker, emit_state, send,
}
use arcade_launcher_stream_e.Base.{
  codes, true, false, [], ◌∷◌, none, some, ◌≡◌, ◌≢◌, ◌≤◌, ◌⊎◌, refl, pos, negsuc, is_empty, ◌^◌,
  ◌%◌, ◌*◌, ◌+◌, arith,
}

abbrev li : Limelight
li = record { stage_name = λ stage. codes "stage"; graceful_termination = 0 }

abbrev info : StartInfo
info = record {
  host = codes "10.0.0.2";
  server_app_version = codes "7.1.431.0";
  gfe_version = [];
  rtsp_session_url = codes "rtsp://10.0.0.2:48010";
  server_codec_mode_support = pos 3;
  settings = record {
    width = pos 1280;
    height = pos 720;
    fps = pos 60;
    bitrate_kbps = pos 10000;
    display_mode = codes "windowed";
    hdr = false;
  };
  ri_key = codes "0123456789abcdef";
  ri_key_id = pos 77;
  embed_window = true;
}

info-launched : (start info new_session).0 ≡ launched
unfolding start is_empty
info-launched = refl

launched-ne-terminates : (s : Session) → (start info s).0 ≡ launched → (start info s).0 ≢ terminates
launched-ne-terminates s h = λ e. cc

-- The session behind `start`, behind the window was made, and with a connection.
abbrev opened : Session
opened = (start info new_session).1

opened-Reachable : Reachable li opened
opened-Reachable =
    Reachable.after (Reachable.initial refl)
      (Step.starts info refl (launched-ne-terminates new_session info-launched) refl)

opened-opening : opened.worker ≡ Worker.opening info
unfolding start is_empty
opened-opening = refl

abbrev prepared : Session
prepared = prepare info (some (codes "42")) opened

prepared-Reachable : Reachable li prepared
prepared-Reachable =
    Reachable.after opened-Reachable
      (Step.works (WorkerStep.prepares info (some (codes "42")) opened-opening refl))

prepared-connecting : prepared.worker ≡ Worker.connecting info true
unfolding prepare
prepared-connecting = refl

abbrev connected : Session
connected = after_connect true (pos 0) 5 prepared

connected-Reachable : Reachable li connected
connected-Reachable =
    Reachable.after prepared-Reachable
      (Step.works (WorkerStep.connects info true (pos 0) 5 prepared-connecting refl))

Reachable-Consistent_example : Consistent connected
Reachable-Consistent_example = Reachable-Consistent li connected-Reachable

-- A second passes.
abbrev looped : Session
looped = loop_round true 5 true 1010 connected

-- `stop` is called, and waits for the worker.
abbrev asked : Session
asked = stop_begin connected

connected_not_stopping : connected.stopping ≡ false
unfolding start is_empty prepare after_connect
connected_not_stopping = refl

asked-Reachable : Reachable li asked
asked-Reachable = Reachable.after connected-Reachable (Step.stops connected_not_stopping refl)

asked_waits : (asked.stopping ≡ true) × (asked.worker ≡ Worker.streaming true 5)
unfolding start is_empty prepare after_connect stop_begin
asked_waits = (refl, refl)

stop-ends_example :
    (1 ≤ 6)
    × (((loop_round true 5 true 20 asked).worker ≡ finished)
        ⊎ ((u : Session) × WorkerStep li (loop_round true 5 true 20 asked) u))
stop-ends_example =
    stop-ends li asked-Reachable asked_waits.0
      (Waiting.works Waiting.here (WorkerStep.loops true 5 true 20 asked_waits.1 refl))

abbrev answers : Answers
answers = record { handle = none; rc = pos 0; alive = true; now = 30 }

stop_session-Quiet_example :
    Quiet (stop_session answers connected)
    × Quiet (stop_session answers (stop_session answers connected))
stop_session-Quiet_example =
    stop_session-Quiet li answers answers connected-Reachable connected_not_stopping

-- The connection fails, and the worker returns without a call of `stop`.
abbrev refused : Session
refused = after_connect true (negsuc 0) 5 prepared

abbrev ended : Session
ended = report (codes "error") (codes "LiStartConnection failed (code -1)") refused

-- A second client.start then ends the engine.
ended_terminates : (start info ended).0 ≡ terminates
unfolding start is_empty prepare after_connect report emit_state send
ended_terminates = refl

aes_iv-make_ri_key_id_example :
    (make_ri_key_id (129 ∷ 2 ∷ 3 ∷ 4 ∷ []) ≡ 129 % 128 * 2 ^ 24 + 2 * 2 ^ 16 + 3 * 2 ^ 8 + 4)
    × (aes_iv (make_ri_key_id (129 ∷ 2 ∷ 3 ∷ 4 ∷ []))
        ≡ 129 % 128 ∷ 2 ∷ 3 ∷ 4 ∷ 0 ∷ 0 ∷ 0 ∷ 0 ∷ 0 ∷ 0 ∷ 0 ∷ 0 ∷ 0 ∷ 0 ∷ 0 ∷ 0 ∷ [])
aes_iv-make_ri_key_id_example =
    aes_iv-make_ri_key_id 129 2 3 4 [] (omega arith) (omega arith) (omega arith) (omega arith)
