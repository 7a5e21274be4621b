-- ===== src/Client/StreamWindow/Pads.antt =====
-- Every controller that was opened is closed once, and what is sent of it.
use arcade_launcher_stream_e.Client.StreamWindow.{
  Pad, Window, open_at, close_instance, close_all, handle_event, handle_events, destroy, SdlEvent,
  CreateAnswers, device_added, create, new_window, device_removed, quit, other,
}
use arcade_launcher_stream_e.Base.{
  ℕ, zero, suc, ◌+◌, false, List, [], ◌∷◌, ◌==◌, Option, none, some, ◌≡◌, refl, inl, inr, arith,
  Bool-cases, pos, negsuc, count, count-append,
}

abbrev pub handles_of : List (Option Pad) → List ℕ
handles_of [] = []
handles_of (none ∷ pads) = handles_of pads
handles_of (some p ∷ pads) = p.handle ∷ handles_of pads

-- Each handle was closed as often as it was opened, but for those in the places.
abbrev pub IsTidy : Window → Type 0
IsTidy w = (k : ℕ) → count k w.opened ≡ count k w.closed + count k (handles_of w.pads)

open_at-count :
    (k i : ℕ) (pad : Option Pad) (pads : List (Option Pad))
    → count k (handles_of (open_at i pad pads).0)
      ≡ count k (open_at i pad pads).1 + count k (handles_of pads)
unfolding open_at
open_at-count k i pad [] = omega arith
open_at-count k zero none (none ∷ pads) = omega arith
open_at-count k zero (some q) (none ∷ pads) = omega arith
open_at-count k zero pad (some p ∷ pads) = omega arith
open_at-count k (suc i) pad (none ∷ pads) = open_at-count k i pad pads
open_at-count k (suc i) pad (some p ∷ pads) = omega (arith, open_at-count k i pad pads)

close_instance-count :
    (k id : ℕ) (pads : List (Option Pad))
    → count k (handles_of pads)
      ≡ count k (close_instance id pads).1 + count k (handles_of (close_instance id pads).0)
unfolding close_instance
close_instance-count k id [] = omega arith
close_instance-count k id (none ∷ pads) = close_instance-count k id pads
close_instance-count k id (some p ∷ pads) = elim (Bool-cases (p.instance_id == id)) [
  | inl e ↦ rw e (omega (arith, close_instance-count k id pads))
  | inr e ↦ rw e (omega (arith, close_instance-count k id pads))
]

close_all-count :
    (k : ℕ) (pads : List (Option Pad))
    → (count k (handles_of pads) ≡ count k (close_all pads).1)
      × (handles_of (close_all pads).0 ≡ [])
unfolding close_all
close_all-count k [] = (refl, refl)
close_all-count k (none ∷ pads) = close_all-count k pads
close_all-count k (some p ∷ pads) =
    let (same, gone) = close_all-count k pads in (omega (arith, same), gone)

handle_event-IsTidy : (e : SdlEvent) (w : Window) → IsTidy w → IsTidy (handle_event e w)
unfolding handle_event
handle_event-IsTidy quit w t = t
handle_event-IsTidy other w t = t
handle_event-IsTidy (device_added (negsuc i) pad) w t = t
handle_event-IsTidy (device_added (pos i) pad) w t = λ k.
    omega
      (arith, count-append k w.opened (open_at i pad w.pads).1, open_at-count k i pad w.pads, t k)
handle_event-IsTidy (device_removed id) w t = λ k. omega (
  arith,
  count-append k w.closed (close_instance id w.pads).1,
  close_instance-count k id w.pads,
  t k,
)

handle_events-IsTidy : (es : List SdlEvent) (w : Window) → IsTidy w → IsTidy (handle_events es w)
unfolding handle_events
handle_events-IsTidy [] w t = t
handle_events-IsTidy (e ∷ es) w t =
    handle_events-IsTidy es (handle_event e w) (handle_event-IsTidy e w t)

create-places :
    (a : CreateAnswers)
    → ((create a new_window).1.opened ≡ [])
      × ((create a new_window).1.closed ≡ [])
      × (handles_of (create a new_window).1.pads ≡ [])
unfolding create
create-places a = (ground arith, ground arith, ground arith)

create-IsTidy : (a : CreateAnswers) → IsTidy (create a new_window).1
create-IsTidy a k = let (o, c, h) = create-places a in rw (o, c, h) (omega arith)

-- Whatever `create` is answered and whatever events come, `destroy` closes every controller that is
-- open: each handle was closed as often as it was opened; and no window, renderer or subsystem is left.
pub destroy_tidy :
    (a : CreateAnswers) (es : List SdlEvent)
    → let w = destroy (handle_events es (create a new_window).1) in
      ((k : ℕ) → count k w.opened ≡ count k w.closed)
      × (handles_of w.pads ≡ [])
      × (w.has_window ≡ false)
      × (w.has_renderer ≡ false)
      × (w.sdl_inited ≡ false)
unfolding destroy
destroy_tidy a es =
    let w = handle_events es (create a new_window).1 in
    (
      λ k. omega (
        arith,
        count-append k w.closed (close_all w.pads).1,
        (close_all-count k w.pads).0,
        (handle_events-IsTidy es (create a new_window).1 (create-IsTidy a)) k,
      ),
      (close_all-count 0 w.pads).1,
      refl,
      refl,
      refl,
    )
