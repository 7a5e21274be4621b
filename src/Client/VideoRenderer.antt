-- ===== src/Client/VideoRenderer.antt =====
-- `VideoRenderer` of src/client/video_renderer.cpp: the decoder's set-up, the frame that the decoding
-- thread hands to the presenting one, and the texture. What FFmpeg and SDL answer is an argument. An
-- allocation of a frame does not fail, and the
-- counters are numbers without the limit of `uint64_t`.
use arcade_launcher_stream_e.Base.{
  ℕ, ◌+◌, Bool, true, false, not, ◌&&◌, List, [], ◌∷◌, ◌++◌, ◌==◌, if◌then◌else◌, Option, none,
  some, ℤ, pos,
}
pub mod Present
pub mod Frames
pub mod Submitted

-- A decoded frame in system memory: its pointer, format and size.
pub record Frame : Type 0 where
  pub pointer : ℕ
  pub format : ℕ
  pub width : ℕ
  pub height : ℕ

-- The formats: of hardware surfaces, and of the frames that can be shown, with those of SDL.
pub record Formats : Type 0 where
  pub hardware : ℕ
  pub nv12 : ℕ
  pub yuv420p : ℕ
  pub sdl_nv12 : ℕ
  pub sdl_iyuv : ℕ

pub record Texture : Type 0 where
  pub format : ℕ
  pub width : ℕ
  pub height : ℕ

-- The members; `uncounted` is set between the handing over of a frame and the count of it, and
-- `taken` is the frame that `present` has in hand. And the frames in system memory that were allocated
-- and freed.
pub record Renderer : Type 0 where
  pub has_codec : Bool
  pub has_device : Bool
  pub hw_pix_fmt : Option ℕ
  pub using_hardware : Bool
  pub pending_frame : Option Frame
  pub taken : Option Frame
  pub texture : Option Texture
  pub frames_decoded : ℕ
  pub frames_presented : ℕ
  pub decode_errors : ℕ
  pub uncounted : Bool
  pub width : ℤ
  pub height : ℤ
  pub allocated : List ℕ
  pub freed : List ℕ

abbrev pub new_renderer : Renderer
new_renderer = record {
  has_codec = false;
  has_device = false;
  hw_pix_fmt = none;
  using_hardware = false;
  pending_frame = none;
  taken = none;
  texture = none;
  frames_decoded = 0;
  frames_presented = 0;
  decode_errors = 0;
  uncounted = false;
  width = pos 0;
  height = pos 0;
  allocated = [];
  freed = [];
}

-- What the calls of `setup` answer: whether there is a decoder, a device for the hardware, and, for
-- each of the two attempts, a context that can be opened.
pub record SetupAnswers : Type 0 where
  pub finds_decoder : Bool
  pub creates_device : Bool
  pub allocates_hw : Bool
  pub opens_hw : Bool
  pub allocates_sw : Bool
  pub opens_sw : Bool

-- The second attempt, with the result 0 as `true` and -1 as `false`
unfoldable pub setup_software : SetupAnswers → Renderer → Bool × Renderer
setup_software a r =
    if not (a.allocates_sw && a.opens_sw)
    then (false, record r { has_codec = false })
    else (true, record r { has_codec = true; using_hardware = false })

unfoldable pub setup : Formats → SetupAnswers → ℤ → ℤ → Renderer → Bool × Renderer
unfolding setup_software
setup fs a width height r0 =
    let r = record r0 { width = width; height = height } in
    if not a.finds_decoder
    then (false, r)
    else if not a.creates_device
    then setup_software a r
    else if a.allocates_hw && a.opens_hw
    then (
      true,
      record r {
        has_codec = true;
        has_device = true;
        hw_pix_fmt = some fs.hardware;
        using_hardware = true;
      },
    )
    else setup_software a (record r { has_codec = false; has_device = false; hw_pix_fmt = none })

-- The loop of `pick_format` over the formats that are offered, with the fallback
unfoldable pub find_format : Option ℕ → ℕ → List ℕ → ℕ
find_format want first [] = first
find_format none first (f ∷ fmts) = first
find_format (some want) first (f ∷ fmts) =
    if f == want then f else find_format (some want) first fmts

-- `pick_format` on the formats in front of AV_PIX_FMT_NONE, of which there is one at least
unfoldable pub pick_format : Option ℕ → ℕ → List ℕ → ℕ
unfolding find_format
pick_format want first fmts = find_format want first (first ∷ fmts)

abbrev pub free_frame : Option Frame → List ℕ → List ℕ
free_frame none freed = freed
free_frame (some f) freed = freed ++ (f.pointer ∷ [])

-- The critical section of `submit`: a frame that was not presented is freed.
unfoldable pub hand_over : Frame → Renderer → Renderer
hand_over f r = record r {
  pending_frame = some f;
  uncounted = true;
  allocated = r.allocated ++ (f.pointer ∷ []);
  freed = free_frame r.pending_frame r.freed;
}

-- ++framesDecoded_
unfoldable pub count_frame : Renderer → Renderer
count_frame r = record r { uncounted = false; frames_decoded = r.frames_decoded + 1 }

-- A surface that cannot be transferred: its frame is freed.
unfoldable pub drop_frame : Frame → Renderer → Renderer
drop_frame f r = record r {
  decode_errors = r.decode_errors + 1;
  allocated = r.allocated ++ (f.pointer ∷ []);
  freed = r.freed ++ (f.pointer ∷ []);
}

-- What `avcodec_receive_frame` gives: no more frames, an error, or a frame of a format, whose copy in
-- system memory is `copy` and whose transfer, if it is a surface, may fail.
pub data Received : Type 0 where
  no_more : Received
  broken : Received
  frame : (format : ℕ) (copy : Frame) (transfers : Bool) → Received

abbrev pub is_surface : Option ℕ → ℕ → Bool
is_surface none format = false
is_surface (some hw) format = format == hw

-- The loop of `submit`
unfoldable pub receive_frames : List Received → Renderer → Renderer
unfolding hand_over count_frame drop_frame
receive_frames [] r = r
receive_frames (no_more ∷ more) r = r
receive_frames (broken ∷ more) r = record r { decode_errors = r.decode_errors + 1 }
receive_frames (frame format copy transfers ∷ more) r = receive_frames more (
    if is_surface r.hw_pix_fmt format && not transfers
    then drop_frame copy r
    else count_frame (hand_over copy r))

-- `submit`, with the result DR_OK as `true` and DR_NEED_IDR as `false`
unfoldable pub submit : Bool → Bool → List Received → Renderer → Bool × Renderer
unfolding receive_frames
submit allocates sends received r =
    if not (r.has_codec && allocates)
    then (false, r)
    else if not sends
    then (false, record r { decode_errors = r.decode_errors + 1 })
    else (true, receive_frames received r)
