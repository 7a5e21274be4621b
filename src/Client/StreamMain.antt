-- ===== src/Client/StreamMain.antt =====
-- `stream_main` of src/client/stream_main.cpp by its exit codes, and the events that the client sends
-- to the launcher.
use arcade_launcher_stream_e.Main.{ipc_token_from_args, run_code}
use arcade_launcher_stream_e.Client.World.{World}
use arcade_launcher_stream_e.Client.Session.Steps.{Answers}
use arcade_launcher_stream_e.Net.PairingCrypto.{OpenSsl}
use arcade_launcher_stream_e.Ipc.Server.{
  emit, empty_object, number_of, Finish, Outcome, Handlers, run, handshake, success, failure,
}
use arcade_launcher_stream_e.Client.Start.{client_handlers}
use arcade_launcher_stream_e.Ipc.Transport.{Transport}
use arcade_launcher_stream_e.Json.{Value, set, str, bool, num}
use arcade_launcher_stream_e.Json.Floats.{Floats}
use arcade_launcher_stream_e.Client.Session.{StateEvent}
use arcade_launcher_stream_e.Base.{
  ℕ, Bytes, codes, Bool, List, if◌then◌else◌, Option, some, is_empty, ℤ, none,
}
pub mod Exits

-- The event stream.state
unfoldable pub state_value : StateEvent → Value
state_value e =
    let d = set (set empty_object (codes "phase") (str e.phase)) (codes "reason") (str e.reason) in
    if is_empty e.native_window then d else set d (codes "nativeWindow") (str e.native_window)

-- `StreamStats` of src/client/stream_session.h
pub record StreamStats : Type 0 where
  pub frames_decoded : ℕ
  pub frames_presented : ℕ
  pub decode_errors : ℕ
  pub hardware : Bool
  pub width : ℤ
  pub height : ℤ
  pub rtt_ms : ℕ
  pub rtt_var_ms : ℕ

-- How the program ends: with an exit code, or by `std::terminate`. `unfinished` is a run whose model is
-- out of fuel.
pub data Ending : Type 0 where
  exits : ℕ → Ending
  aborts unfinished : Ending

abbrev pub exit_of : Option ℕ → Ending
exit_of none = unfinished
exit_of (some code) = exits code

module _ ⦃fl : Floats⦄ where
  -- The event stream.stats
  unfoldable pub stats_value : StreamStats → Value
  stats_value s =
      let d = set empty_object (codes "framesDecoded") (number_of s.frames_decoded) in
      let d = set d (codes "framesPresented") (number_of s.frames_presented) in
      let d = set d (codes "decodeErrors") (number_of s.decode_errors) in
      let d = set d (codes "hardware") (bool s.hardware) in
      let d = set d (codes "width") (num (fl.of_ℤ s.width)) in
      let d = set d (codes "height") (num (fl.of_ℤ s.height)) in
      let d = set d (codes "rttMs") (number_of s.rtt_ms) in
      set d (codes "rttVarMs") (number_of s.rtt_var_ms)

  -- The sinks of the session, which send an event each
  unfoldable pub emit_event : StateEvent → Transport → Transport
  emit_event e t = emit (codes "stream.state") (state_value e) t

  unfoldable pub emit_stats : StreamStats → Transport → Transport
  emit_stats s t = emit (codes "stream.stats") (stats_value s) t

  -- A session that was ended by `std::terminate` has ended the program: what the loop would do behind
  -- that is not part of its run.
  unfoldable pub run_ending : Finish × Transport × World → Ending
  run_ending (finish, t, w) = if w.ended then aborts else exit_of (run_code finish)

  unfoldable pub serve_stream : Handlers World → ℕ → World → Outcome × Transport → Ending
  unfolding run_ending
  serve_stream hs fuel w (failure err, t) = exits 70
  serve_stream hs fuel w (success, t) = run_ending (run hs fuel t w)

  unfoldable pub connected_stream : Handlers World → Bytes → ℕ → World → Option Transport → Ending
  unfolding serve_stream
  connected_stream hs version fuel w none = exits 69
  connected_stream hs version fuel w (some t) = serve_stream hs fuel w (handshake version t)

  -- `stream_main`; `connect` is `connect_local`.
  unfoldable pub stream_main :
      OpenSsl
      → Bytes
      → Answers
      → Bytes
      → ℕ
      → (Bytes → Option Transport)
      → World
      → List Bytes
      → Ending
  unfolding client_handlers connected_stream
  stream_main ssl extra_query a version fuel connect w args =
      let token = ipc_token_from_args args in
      if is_empty token
      then exits 64
      else connected_stream (client_handlers ssl extra_query a) version fuel w (connect token)
