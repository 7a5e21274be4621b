-- ===== src/Client/VideoRenderer/Frames.antt =====
-- No frame is lost and none is freed twice, in any interleaving of the two threads.
use arcade_launcher_stream_e.Client.VideoRenderer.Present.{cleanup, take_pending, show_taken}
use arcade_launcher_stream_e.Client.VideoRenderer.{
  Frame, Renderer, Formats, hand_over, count_frame, drop_frame, SetupAnswers, setup, new_renderer,
}
use arcade_launcher_stream_e.Base.{
  ℕ, ◌+◌, ◌≤◌, Bool, true, false, List, [], ◌∷◌, if◌then◌else◌, Option, none, some, ◌≡◌, length, ℤ,
  count,
}

abbrev pub held : Option Frame → List ℕ
held none = []
held (some f) = f.pointer ∷ []

abbrev pub number : Bool → ℕ
number b = if b then 1 else 0

-- A frame was freed as often as it was allocated, but for the pending one and the one in hand; and no
-- more frames were presented, are in hand or wait, than were decoded.
pub record Balanced (r : Renderer) : Type 0 where
  pub owned :
      (k : ℕ)
      → count k r.allocated
        ≡ count k r.freed + count k (held r.pending_frame) + count k (held r.taken)
  pub counted :
      r.frames_presented + length (held r.pending_frame) + length (held r.taken)
      ≤ r.frames_decoded + number r.uncounted

-- The steps of the two threads: the decoding thread hands a frame over and counts it, drops one, or
-- meets an error; the presenting thread takes the pending frame, shows and frees the one in hand,
-- cleans up, and sets up.
pub data Move (fs : Formats) (r : Renderer) (t : Renderer) : Type 0 where
  hands : (f : Frame) → r.uncounted ≡ false → t ≡ hand_over f r → Move fs r t
  counts : r.uncounted ≡ true → t ≡ count_frame r → Move fs r t
  drops : (f : Frame) → t ≡ drop_frame f r → Move fs r t
  errs : t ≡ record r { decode_errors = r.decode_errors + 1 } → Move fs r t
  takes : r.taken ≡ none → t ≡ take_pending r → Move fs r t
  shows : (creates updates : Bool) → t ≡ show_taken fs creates updates r → Move fs r t
  sets_up : (a : SetupAnswers) (width height : ℤ) → t ≡ (setup fs a width height r).1 → Move fs r t
  cleans : r.taken ≡ none → t ≡ cleanup r → Move fs r t

pub data Moves (fs : Formats) : Renderer → Type 0 where
  fresh : {r : Renderer} → r ≡ new_renderer → Moves fs r
  then_one : {r t : Renderer} → Moves fs r → Move fs r t → Moves fs t
