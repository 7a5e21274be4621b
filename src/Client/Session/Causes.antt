-- ===== src/Client/Session/Causes.antt =====
-- Why a start that is usable can end the program: src/client/stream_session.cpp.
use arcade_launcher_stream_e.Client.Session.{Session, reporting, finished}
use arcade_launcher_stream_e.Base.{Bytes, ◌≡◌}
use arcade_launcher_stream_e.Client.Session.Farewells.{Farewell, Farewells}

-- The thread has stored `false` to `running_`, and was not joined, since the user has closed the
-- window or the connection could not be made: its last event says so, and is sent or about to be.
pub data ByItself (s : Session) : Type 0 where
  about_to_report :
      (phase reason : Bytes)
      → s.worker ≡ reporting phase reason
      → Farewell phase reason
      → ByItself s
  reported : s.worker ≡ finished → Farewells s.events → ByItself s
