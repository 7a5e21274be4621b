-- ===== src/Client/VideoRenderer/Submitted.antt =====
-- `submit` and `present` of src/client/video_renderer.cpp are made of the moves of the two threads.
use arcade_launcher_stream_e.Client.VideoRenderer.Present.{present}
use arcade_launcher_stream_e.Client.VideoRenderer.Frames.{
  Moves, then_one, hands, counts, drops, errs, takes, shows,
}
use arcade_launcher_stream_e.Client.VideoRenderer.{
  Renderer, Formats, Received, no_more, broken, frame, Frame, submit, receive_frames, hand_over,
  count_frame, drop_frame, is_surface,
}
use arcade_launcher_stream_e.Base.{
  Bool, true, false, not, ◌&&◌, List, [], ◌∷◌, if◌then◌else◌, ◌≡◌, refl, Bool-cases, inl, inr, none,
}

-- A state that is reached, in which every frame that was handed over is counted
record Ready (fs : Formats) (r : Renderer) : Type 0 where
  reached : Moves fs r
  counted : r.uncounted ≡ false

module _ (fs : Formats) where
  one_frame :
      (surface : Bool) (copy : Frame) (r : Renderer)
      → Ready fs r
      → Ready fs (if surface then drop_frame copy r else count_frame (hand_over copy r))
  unfolding drop_frame count_frame hand_over
  one_frame true copy r k = record {
    reached = then_one k.reached (drops copy refl);
    counted = k.counted;
  }
  one_frame false copy r k = record {
    reached = then_one (then_one k.reached (hands copy k.counted refl)) (counts refl refl);
    counted = refl;
  }

  receive_frames-Ready :
      (received : List Received) (r : Renderer) → Ready fs r → Ready fs (receive_frames received r)
  unfolding receive_frames
  receive_frames-Ready [] r k = k
  receive_frames-Ready (no_more ∷ more) r k = k
  receive_frames-Ready (broken ∷ more) r k = record {
    reached = then_one k.reached (errs refl);
    counted = k.counted;
  }
  receive_frames-Ready (frame format copy transfers ∷ more) r k =
      receive_frames-Ready more _
        (one_frame (is_surface r.hw_pix_fmt format && not transfers) copy r k)

  -- A call of `submit` takes a renderer that is reached, with its frames counted, to such a renderer.
  pub submit-Moves :
      (allocates sends : Bool) (received : List Received) (r : Renderer)
      → Moves fs r
      → r.uncounted ≡ false
      → Moves fs (submit allocates sends received r).1
        × ((submit allocates sends received r).1.uncounted ≡ false)
  unfolding submit
  submit-Moves allocates sends received r m c = elim (Bool-cases (r.has_codec && allocates)) [
    | inr e ↦ rw e (m, c)
    | inl e ↦ elim (Bool-cases sends) [
      | inr q ↦ rw (e, q) (then_one m (errs refl), c)
      | inl q ↦
          let k = receive_frames-Ready received r (record { reached = m; counted = c }) in
          rw (e, q) (k.reached, k.counted)
    ]
  ]

  -- A call of `present` that has no frame in hand is two moves of the presenting thread.
  pub present-Moves :
      (has_renderer creates updates : Bool) (r : Renderer)
      → Moves fs r
      → r.taken ≡ none
      → Moves fs (present fs has_renderer creates updates r)
  unfolding present
  present-Moves false creates updates r m h = m
  present-Moves true creates updates r m h =
      then_one (then_one m (takes h refl)) (shows creates updates refl)
