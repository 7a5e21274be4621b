-- ===== src/Ipc/Server/Writers.antt =====
-- `write_locked` of src/ipc/server.cpp, which `emit` and `run` call from two threads: while one holds
-- `write_mu_`, its frame goes out in pieces of any size, and the others wait.
use arcade_launcher_stream_e.Ipc.Frame.{max_frame, header}
use arcade_launcher_stream_e.Ipc.Frame.RoundTrip.{wire}
use arcade_launcher_stream_e.Ipc.Server.Serving.{wires}
use arcade_launcher_stream_e.Base.{
  ℕ, ◌≤◌, Bytes, Bool, true, false, List, [], ◌∷◌, ◌++◌, Option, none, some, ◌≡◌, refl, sym, ap,
  ◌∙◌, length, take, drop, take-append-drop, append_assoc, append-nil, ◌≢◌, inl, inr, Bool-cases,
  subst,
}

-- The frame of the thread that holds the lock, and what is left of it to write.
pub record Holder : Type 0 where
  pub payload : Bytes
  pub left : Bytes

-- What went out, which thread holds the lock, whether a write has failed, and the payloads whose
-- frames were written whole, in order.
pub record Writers : Type 0 where
  pub outgoing : Bytes
  pub holder : Option Holder
  pub failed : Bool
  pub whole : List Bytes

abbrev pub idle : Writers
idle = record { outgoing = []; holder = none; failed = false; whole = [] }

-- A thread gets the lock, in `write_locked`.
unfoldable pub take_lock : Bytes → Writers → Writers
take_lock payload w = record w { holder = some (record { payload = payload; left = wire payload }) }

-- The system takes the next bytes of the frame.
unfoldable pub move_bytes : ℕ → Holder → Writers → Writers
move_bytes n h w = record w {
  outgoing = w.outgoing ++ take n h.left;
  holder = some (record h { left = drop n h.left });
}

-- `write_frame` has written all, and the lock is released.
unfoldable pub end_frame : Holder → Writers → Writers
end_frame h w = record w { holder = none; whole = w.whole ++ (h.payload ∷ []) }

-- A write fails, and the lock is released; so will every later write.
unfoldable pub give_up : Writers → Writers
give_up w = record w { holder = none; failed = true }

module _ (w : Writers) (u : Writers) where
  pub data Writing : Type 0 where
    begins :
        (payload : Bytes)
        → w.holder ≡ none
        → length payload ≤ max_frame
        → u ≡ take_lock payload w
        → Writing
    moves :
        (n : ℕ) (h : Holder) → w.holder ≡ some h → w.failed ≡ false → u ≡ move_bytes n h w → Writing
    finishes : (h : Holder) → w.holder ≡ some h → h.left ≡ [] → u ≡ end_frame h w → Writing
    gives_up : (h : Holder) → w.holder ≡ some h → u ≡ give_up w → Writing

pub data Reachable : Writers → Type 0 where
  initial : {w : Writers} → w ≡ idle → Reachable w
  after : {w u : Writers} → Reachable w → Writing w u → Reachable u

wires-append : (ss : List Bytes) (s : Bytes) → wires (ss ++ (s ∷ [])) ≡ wires ss ++ wire s
wires-append [] s = append-nil (wire s)
wires-append (t ∷ ss) s =
    ap (λ l. wire t ++ l) (wires-append ss s) ∙ sym (append_assoc (wire t) (wires ss) (wire s))

-- What went out is the whole frames, and a part of one frame behind them. It is the part that the
-- holder has written, and none where nobody holds the lock, as long as no write has failed.
pub record InFrames (w : Writers) : Type 0 where
  pub part : Bytes
  pub rest : Bytes
  pub payload : Bytes
  pub front : part ++ rest ≡ wire payload
  pub frames : w.outgoing ≡ wires w.whole ++ part
  pub of_holder :
      (h : Holder) → w.holder ≡ some h → w.failed ≡ false → part ++ h.left ≡ wire h.payload
  pub at_rest : w.holder ≡ none → w.failed ≡ false → part ≡ []
  pub stuck : (h : Holder) → w.holder ≡ some h → w.failed ≡ true → h.left ≡ wire h.payload

same_holder : {g h : Holder} → some g ≡ some h → g ≡ h
same_holder e = cc

idle-InFrames : InFrames idle
idle-InFrames = record {
  part = [];
  rest = wire [];
  payload = [];
  front = refl;
  frames = refl;
  of_holder = λ h e f. absurd (cc e);
  at_rest = λ e f. refl;
  stuck = λ h e f. absurd (cc f);
}

wire-ne-nil : (payload : Bytes) → wire payload ≢ []
unfolding header
wire-ne-nil payload h = absurd (cc h)

take_lock-InFrames :
    (payload : Bytes) (w : Writers) → w.holder ≡ none → InFrames w → InFrames (take_lock payload w)
unfolding take_lock
take_lock-InFrames payload w e i = record {
  part = i.part;
  rest = i.rest;
  payload = i.payload;
  front = i.front;
  frames = i.frames;
  of_holder = λ h k f.
      subst (λ g. i.part ++ g.left ≡ wire g.payload) (same_holder k)
        (ap (λ p. p ++ wire payload) (i.at_rest e f));
  at_rest = λ k f. absurd (cc k);
  stuck = λ h k f. subst (λ g. g.left ≡ wire g.payload) (same_holder k) refl;
}

move_bytes-InFrames :
    (n : ℕ) (h : Holder) (w : Writers)
    → w.holder ≡ some h
    → w.failed ≡ false
    → InFrames w
    → InFrames (move_bytes n h w)
unfolding move_bytes
move_bytes-InFrames n h w e f i =
    let whole : (i.part ++ take n h.left) ++ drop n h.left ≡ wire h.payload =
      append_assoc i.part (take n h.left) (drop n h.left)
      ∙ (ap (λ l. i.part ++ l) (take-append-drop n h.left) ∙ i.of_holder h e f) in
    record {
      part = i.part ++ take n h.left;
      rest = drop n h.left;
      payload = h.payload;
      front = whole;
      frames =
          ap (λ l. l ++ take n h.left) i.frames
          ∙ append_assoc (wires w.whole) i.part (take n h.left);
      of_holder = λ g k q.
          subst (λ x. (i.part ++ take n h.left) ++ x.left ≡ wire x.payload) (same_holder k) whole;
      at_rest = λ k q. absurd (cc k);
      stuck = λ g k q. absurd (cc (sym f ∙ q));
    }

end_frame-InFrames :
    (h : Holder) (w : Writers)
    → w.holder ≡ some h
    → h.left ≡ []
    → InFrames w
    → InFrames (end_frame h w)
unfolding end_frame
end_frame-InFrames h w e l i = elim (Bool-cases w.failed) [
  | inl f ↦ absurd (wire-ne-nil h.payload (sym (i.stuck h e f) ∙ l))
  | inr f ↦
      let written : i.part ≡ wire h.payload =
        sym (append-nil i.part) ∙ (ap (λ r. i.part ++ r) (sym l) ∙ i.of_holder h e f) in
      record {
        part = [];
        rest = wire [];
        payload = [];
        front = refl;
        frames =
            i.frames
            ∙ (ap (λ r. wires w.whole ++ r) written
                ∙ (sym (wires-append w.whole h.payload) ∙ sym (append-nil _)));
        of_holder = λ g k q. absurd (cc k);
        at_rest = λ k q. refl;
        stuck = λ g k q. absurd (cc k);
      }
]

give_up-InFrames : (w : Writers) → InFrames w → InFrames (give_up w)
unfolding give_up
give_up-InFrames w i = record {
  part = i.part;
  rest = i.rest;
  payload = i.payload;
  front = i.front;
  frames = i.frames;
  of_holder = λ h k f. absurd (cc k);
  at_rest = λ k f. absurd (cc f);
  stuck = λ h k f. absurd (cc k);
}

Writing-InFrames : (w u : Writers) → InFrames w → Writing w u → InFrames u
Writing-InFrames w u i (begins payload e fits same) = rw same (take_lock-InFrames payload w e i)
Writing-InFrames w u i (moves n h e f same) = rw same (move_bytes-InFrames n h w e f i)
Writing-InFrames w u i (finishes h e l same) = rw same (end_frame-InFrames h w e l i)
Writing-InFrames w u i (gives_up h e same) = rw same (give_up-InFrames w i)

-- However the threads take turns, what went out is whole frames in the order in which the lock was
-- held, and a front of one frame behind them: no frame has bytes of another one inside. If no write
-- has failed and nobody holds the lock, it is whole frames only.
pub Reachable-InFrames :
    {w : Writers}
    → Reachable w
    → InFrames w × (w.holder ≡ none → w.failed ≡ false → w.outgoing ≡ wires w.whole)
Reachable-InFrames {w} r =
    let i = from r in
    (
      i,
      λ e f. i.frames ∙ (ap (λ l. wires w.whole ++ l) (i.at_rest e f) ∙ append-nil (wires w.whole)),
    )
  where
    from : {w : Writers} → Reachable w → InFrames w
    from (initial e) = rw e idle-InFrames
    from (after {w} {u} r step) = Writing-InFrames w u (from r) step
