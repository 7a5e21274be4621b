-- ===== src/Client/Session/Events.antt =====
-- The order of the events of one stream, and the times between its statistics.
use arcade_launcher_stream_e.Client.Session.{Session}
