-- ===== src/Client/VideoRenderer/Present.antt =====
-- The presenting side of src/client/video_renderer.cpp, its clean-up and its statistics.
use arcade_launcher_stream_e.Client.VideoRenderer.{Frame, Formats, Texture, Renderer, free_frame}
use arcade_launcher_stream_e.Base.{
  ℕ, ◌+◌, Bool, true, false, not, ◌&&◌, [], ◌∷◌, ◌++◌, ◌==◌, if◌then◌else◌, Option, none, some, ℤ,
}

abbrev pub fits : Option Texture → ℕ → ℕ → ℕ → Bool
fits none fmt w h = false
fits (some t) fmt w h = t.format == fmt && t.width == w && t.height == h

-- `ensure_texture`; `creates` is whether SDL makes a new one.
unfoldable pub ensure_texture : Bool → ℕ → ℕ → ℕ → Renderer → Bool × Renderer
ensure_texture creates fmt w h r =
    if fits r.texture fmt w h
    then (true, r)
    else if not creates
    then (false, record r { texture = none })
    else (true, record r { texture = some (record { format = fmt; width = w; height = h }) })

abbrev pub updated : Bool → Bool × Renderer → Bool × Renderer
updated updates (has_texture, r) = (has_texture && updates, r)

-- The texture for a frame, if its format can be shown; `updates` is whether SDL takes its planes.
unfoldable pub show_frame : Formats → Bool → Bool → Frame → Renderer → Bool × Renderer
unfolding ensure_texture
show_frame fs creates updates f r =
    if f.format == fs.nv12
    then updated updates (ensure_texture creates fs.sdl_nv12 f.width f.height r)
    else if f.format == fs.yuv420p
    then updated updates (ensure_texture creates fs.sdl_iyuv f.width f.height r)
    else (false, r)

-- The critical section of `present`: the pending frame is in hand.
unfoldable pub take_pending : Renderer → Renderer
take_pending r = record r { pending_frame = none; taken = r.pending_frame }

-- The frame in hand is counted if it was shown, and freed.
abbrev pub finish_frame : Frame → Bool × Renderer → Renderer
finish_frame f (shown, r) = record r {
  taken = none;
  frames_presented = (if shown then r.frames_presented + 1 else r.frames_presented);
  freed = r.freed ++ (f.pointer ∷ []);
}

unfoldable pub present_taken : Formats → Bool → Bool → Option Frame → Renderer → Renderer
present_taken fs creates updates none r = r
present_taken fs creates updates (some f) r = finish_frame f (show_frame fs creates updates f r)

-- `present` behind its critical section
unfoldable pub show_taken : Formats → Bool → Bool → Renderer → Renderer
unfolding present_taken
show_taken fs creates updates r = present_taken fs creates updates r.taken r

-- `present`; `has_renderer` is whether its argument is set.
unfoldable pub present : Formats → Bool → Bool → Bool → Renderer → Renderer
unfolding take_pending show_taken
present fs has_renderer creates updates r =
    let shown = show_taken fs creates updates (take_pending r) in
    if not has_renderer then r else shown

unfoldable pub cleanup : Renderer → Renderer
cleanup r = record r {
  pending_frame = none;
  freed = free_frame r.pending_frame r.freed;
  texture = none;
  has_codec = false;
  has_device = false;
  hw_pix_fmt = none;
}

-- `VideoStats` and `stats`
pub record VideoStats : Type 0 where
  pub frames_decoded : ℕ
  pub frames_presented : ℕ
  pub decode_errors : ℕ
  pub using_hardware : Bool
  pub width : ℤ
  pub height : ℤ

unfoldable pub stats : Renderer → VideoStats
stats r = record {
  frames_decoded = r.frames_decoded;
  frames_presented = r.frames_presented;
  decode_errors = r.decode_errors;
  using_hardware = r.using_hardware;
  width = r.width;
  height = r.height;
}
