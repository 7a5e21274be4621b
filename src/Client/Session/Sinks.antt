-- ===== src/Client/Session/Sinks.antt =====
-- The callbacks of src/client/stream_session.cpp for pictures and sound: they go to the renderer that
-- a global points to, if it is set.
use arcade_launcher_stream_e.Client.VideoRenderer.{
  Renderer, Formats, SetupAnswers, setup, submit, Received, setup_software,
}
use arcade_launcher_stream_e.Client.VideoRenderer.Frames.{Moves, then_one, sets_up}
use arcade_launcher_stream_e.Client.VideoRenderer.Submitted.{submit-Moves}
use arcade_launcher_stream_e.Client.AudioRenderer.{
  Audio, InitAnswers, OpusConfig, init, decode_and_play,
}
use arcade_launcher_stream_e.Base.{
  Bool, true, false, List, Option, none, some, ℤ, ◌≡◌, refl, ◌∙◌, arith,
}

abbrev pub kept : {A : Type 0} → Bool × A → Bool × Option A
kept (result, a) = (result, some a)

-- The results 0 and DR_OK are `true`.
unfoldable pub vr_setup : Formats → SetupAnswers → ℤ → ℤ → Option Renderer → Bool × Option Renderer
vr_setup fs a width height none = (false, none)
vr_setup fs a width height (some r) = kept (setup fs a width height r)

unfoldable pub vr_submit : Bool → Bool → List Received → Option Renderer → Bool × Option Renderer
vr_submit allocates sends received none = (true, none)
vr_submit allocates sends received (some r) = kept (submit allocates sends received r)

unfoldable pub ar_init : InitAnswers → Option OpusConfig → Option Audio → Bool × Option Audio
ar_init a config none = (true, none)
ar_init a config (some s) = kept (init a config s)

unfoldable pub ar_play : ℤ → Bool → Option Audio → Option Audio
ar_play decoded queues none = none
ar_play decoded queues (some s) = some (decode_and_play decoded queues s)

-- A renderer, if there is one, that is reached with its frames counted
abbrev pub IsReady : Formats → Option Renderer → Type 0
IsReady fs none = Unit
IsReady fs (some r) = Moves fs r × (r.uncounted ≡ false)

setup_uncounted :
    (fs : Formats) (a : SetupAnswers) (width height : ℤ) (r : Renderer)
    → (setup fs a width height r).1.uncounted ≡ r.uncounted
unfolding setup setup_software
setup_uncounted fs a width height r = ground arith

-- Whatever the library calls and the decoder answers, the renderer stays one that the two threads
-- reach, and the pointer to it stays set or unset.
pub callbacks-IsReady :
    (fs : Formats) (o : Option Renderer)
    → IsReady fs o
    → ((a : SetupAnswers) (width height : ℤ) → IsReady fs (vr_setup fs a width height o).1)
      × ((allocates sends : Bool) (received : List Received)
          → IsReady fs (vr_submit allocates sends received o).1)
unfolding vr_setup vr_submit
callbacks-IsReady fs none k = (λ a width height. tt, λ allocates sends received. tt)
callbacks-IsReady fs (some r) (m, c) = (
  λ a width height.
      (then_one m (sets_up a width height refl), setup_uncounted fs a width height r ∙ c),
  λ allocates sends received. submit-Moves fs allocates sends received r m c,
)
