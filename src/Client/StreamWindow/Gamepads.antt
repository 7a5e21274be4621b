-- ===== src/Client/StreamWindow/Gamepads.antt =====
-- The controllers of src/client/stream_window.cpp: what is sent for them, and `pump`.
use arcade_launcher_stream_e.Client.StreamWindow.{Pad, Window, SdlEvent, handle_events}
use Prim.Native.Nat.{bit_or}
use arcade_launcher_stream_e.Base.{
  ℕ, ◌+◌, ◌*◌, ◌/◌, ◌%◌, ◌^◌, Bool, not, List, [], ◌∷◌, Option, none, some, ℤ, pos, negsuc,
}

-- SDL's buttons, as far as `sdl_button_flag` knows them.
pub data Button : Type 0 where
  a_button b_button x_button y_button : Button
  dpad_up dpad_down dpad_left dpad_right : Button
  left_shoulder right_shoulder start_button back_button : Button
  left_stick right_stick guide other_button : Button

-- The flags of Limelight.h
pub record Flags : Type 0 where
  pub a_flag : ℕ
  pub b_flag : ℕ
  pub x_flag : ℕ
  pub y_flag : ℕ
  pub up_flag : ℕ
  pub down_flag : ℕ
  pub left_flag : ℕ
  pub right_flag : ℕ
  pub lb_flag : ℕ
  pub rb_flag : ℕ
  pub play_flag : ℕ
  pub back_flag : ℕ
  pub ls_clk_flag : ℕ
  pub rs_clk_flag : ℕ
  pub special_flag : ℕ

unfoldable pub sdl_button_flag : Flags → Button → ℕ
sdl_button_flag fs a_button = fs.a_flag
sdl_button_flag fs b_button = fs.b_flag
sdl_button_flag fs x_button = fs.x_flag
sdl_button_flag fs y_button = fs.y_flag
sdl_button_flag fs dpad_up = fs.up_flag
sdl_button_flag fs dpad_down = fs.down_flag
sdl_button_flag fs dpad_left = fs.left_flag
sdl_button_flag fs dpad_right = fs.right_flag
sdl_button_flag fs left_shoulder = fs.lb_flag
sdl_button_flag fs right_shoulder = fs.rb_flag
sdl_button_flag fs start_button = fs.play_flag
sdl_button_flag fs back_button = fs.back_flag
sdl_button_flag fs left_stick = fs.ls_clk_flag
sdl_button_flag fs right_stick = fs.rs_clk_flag
sdl_button_flag fs guide = fs.special_flag
sdl_button_flag fs other_button = 0

-- The state of a controller: the buttons that are down, in SDL's order, the triggers (0 to 32767) and the
-- sticks (`short`).
pub record PadInput : Type 0 where
  pub pressed : List Button
  pub trigger_left : ℕ
  pub trigger_right : ℕ
  pub left_x : ℤ
  pub left_y : ℤ
  pub right_x : ℤ
  pub right_y : ℤ

-- The arguments of `LiSendMultiControllerEvent`
pub record PadEvent : Type 0 where
  pub index : ℕ
  pub active_mask : ℕ
  pub buttons : ℕ
  pub left_trigger : ℕ
  pub right_trigger : ℕ
  pub left_x : ℤ
  pub left_y : ℤ
  pub right_x : ℤ
  pub right_y : ℤ

-- The places that are taken, from the bit `bit` on
unfoldable pub active_mask : ℕ → List (Option Pad) → ℕ
active_mask bit [] = 0
active_mask bit (none ∷ pads) = active_mask (bit * 2) pads
active_mask bit (some p ∷ pads) = bit + active_mask (bit * 2) pads

-- -v - 1
unfoldable pub invert_axis : ℤ → ℤ
invert_axis (pos n) = negsuc n
invert_axis (negsuc n) = pos n

-- buttons |= flag
unfoldable pub all_flags : Flags → ℕ → List Button → ℕ
unfolding sdl_button_flag
all_flags fs buttons [] = buttons
all_flags fs buttons (b ∷ pressed) = all_flags fs (bit_or buttons (sdl_button_flag fs b)) pressed

unfoldable pub pad_event : Flags → ℕ → ℕ → PadInput → PadEvent
unfolding invert_axis all_flags
pad_event fs i mask x = record {
  index = i;
  active_mask = mask;
  buttons = all_flags fs 0 x.pressed;
  left_trigger = x.trigger_left / 2 ^ 7 % 2 ^ 8;
  right_trigger = x.trigger_right / 2 ^ 7 % 2 ^ 8;
  left_x = x.left_x;
  left_y = invert_axis x.left_y;
  right_x = x.right_x;
  right_y = invert_axis x.right_y;
}

-- The second loop of `poll_and_send_gamepads`, from the place `i` on
unfoldable pub send_pads : Flags → (Pad → PadInput) → ℕ → ℕ → List (Option Pad) → List PadEvent
unfolding pad_event
send_pads fs input mask i [] = []
send_pads fs input mask i (none ∷ pads) = send_pads fs input mask (i + 1) pads
send_pads fs input mask i (some p ∷ pads) =
    pad_event fs i mask (input p) ∷ send_pads fs input mask (i + 1) pads

unfoldable pub poll_and_send_gamepads : Flags → (Pad → PadInput) → Window → List PadEvent
unfolding send_pads active_mask
poll_and_send_gamepads fs input w = send_pads fs input (active_mask 1 w.pads) 0 w.pads

-- `pump`: whether to go on, what was sent, and the window
unfoldable pub pump :
    Flags → (Pad → PadInput) → List SdlEvent → Window → Bool × List PadEvent × Window
unfolding handle_events poll_and_send_gamepads
pump fs input events w =
    let w' = handle_events events w in (not w'.quit, poll_and_send_gamepads fs input w', w')
