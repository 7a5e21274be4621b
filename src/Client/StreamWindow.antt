-- ===== src/Client/StreamWindow.antt =====
-- `StreamWindow` of src/client/stream_window.cpp: the window, the game controllers and their events.
-- What SDL answers is an argument.

use arcade_launcher_stream_e.Base.{
  ℕ, zero, suc, Bytes, codes, Bool, true, false, not, ◌||◌, List, [], ◌∷◌, ◌++◌, ◌==◌,
  if◌then◌else◌, Option, none, some, ℤ, pos, negsuc, to_string,
}
pub mod Gamepads
pub mod Pads

-- A controller that is open: its handle, and the instance id of its joystick.
pub record Pad : Type 0 where
  pub handle : ℕ
  pub instance_id : ℕ

-- The members; `pads` are the four places. And the handles that were opened and closed.
pub record Window : Type 0 where
  pub sdl_inited : Bool
  pub has_window : Bool
  pub has_renderer : Bool
  pub native_handle : Bytes
  pub quit : Bool
  pub pads : List (Option Pad)
  pub opened : List ℕ
  pub closed : List ℕ

abbrev pub new_window : Window
new_window = record {
  sdl_inited = false;
  has_window = false;
  has_renderer = false;
  native_handle = [];
  quit = false;
  pads = none ∷ none ∷ none ∷ none ∷ [];
  opened = [];
  closed = [];
}

-- What the calls of `create` answer: the renderers are the accelerated one and the one in software,
-- and the native handle is a number, if the window manager tells it.
pub record CreateAnswers : Type 0 where
  pub inits : Bool
  pub creates_window : Bool
  pub creates_accelerated : Bool
  pub creates_software : Bool
  pub native : Option ℕ
  pub sdl_error : Bytes

pub data Created : Type 0 where
  created : Created
  not_created : Bytes → Created

abbrev pub handle_text : Option ℕ → Bytes → Bytes
handle_text none before = before
handle_text (some n) before = to_string n

unfoldable pub create : CreateAnswers → Window → Created × Window
create a w =
    let w1 = record w { sdl_inited = true; has_window = a.creates_window } in
    let renders = a.creates_accelerated || a.creates_software in
    if not a.inits
    then (not_created (codes "SDL_InitSubSystem failed: " ++ a.sdl_error), w)
    else if not a.creates_window
    then (not_created (codes "SDL_CreateWindow failed: " ++ a.sdl_error), w1)
    else if not renders
    then (
      not_created (codes "SDL_CreateRenderer failed: " ++ a.sdl_error),
      record w1 { has_renderer = false },
    )
    else (
      created,
      record w1 { has_renderer = true; native_handle = handle_text a.native w.native_handle },
    )

-- What `SDL_PollEvent` gives; an opened controller may be null.
pub data SdlEvent : Type 0 where
  quit : SdlEvent
  device_added : ℤ → Option Pad → SdlEvent
  device_removed : ℕ → SdlEvent
  other : SdlEvent

-- The place with this index, if it is free, takes the controller; it is opened only then.
abbrev pub handle_of : Option Pad → List ℕ
handle_of none = []
handle_of (some p) = p.handle ∷ []

unfoldable pub open_at : ℕ → Option Pad → List (Option Pad) → List (Option Pad) × List ℕ
open_at i pad [] = ([], [])
open_at zero pad (none ∷ pads) = (pad ∷ pads, handle_of pad)
open_at zero pad (some p ∷ pads) = (some p ∷ pads, [])
open_at (suc i) pad (p ∷ pads) = let (rest, handles) = open_at i pad pads in (p ∷ rest, handles)

-- The controllers of an instance are closed, in order.
unfoldable pub close_instance : ℕ → List (Option Pad) → List (Option Pad) × List ℕ
close_instance id [] = ([], [])
close_instance id (none ∷ pads) =
    let (rest, handles) = close_instance id pads in (none ∷ rest, handles)
close_instance id (some p ∷ pads) =
    let (rest, handles) = close_instance id pads in
    if p.instance_id == id then (none ∷ rest, p.handle ∷ handles) else (some p ∷ rest, handles)

unfoldable pub close_all : List (Option Pad) → List (Option Pad) × List ℕ
close_all [] = ([], [])
close_all (none ∷ pads) = let (rest, handles) = close_all pads in (none ∷ rest, handles)
close_all (some p ∷ pads) =
    let (rest, handles) = close_all pads in (none ∷ rest, p.handle ∷ handles)

-- One event of the loop of `pump`
unfoldable pub handle_event : SdlEvent → Window → Window
unfolding open_at close_instance
handle_event quit w = record w { quit = true }
handle_event (device_added (pos i) pad) w =
    let (pads, handles) = open_at i pad w.pads in
    record w { pads = pads; opened = w.opened ++ handles }
handle_event (device_added (negsuc i) pad) w = w
handle_event (device_removed id) w =
    let (pads, handles) = close_instance id w.pads in
    record w { pads = pads; closed = w.closed ++ handles }
handle_event other w = w

unfoldable pub handle_events : List SdlEvent → Window → Window
handle_events [] w = w
handle_events (e ∷ es) w = handle_events es (handle_event e w)

unfoldable pub destroy : Window → Window
unfolding close_all
destroy w =
    let (pads, handles) = close_all w.pads in
    record w {
      pads = pads;
      closed = w.closed ++ handles;
      has_renderer = false;
      has_window = false;
      sdl_inited = false;
    }
