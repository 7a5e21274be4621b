-- ===== src/Ipc/Server/Serving.antt =====
-- The loop of `run` against what it promises: every frame that comes in is processed in order, and
-- its answers go out in that order.
use arcade_launcher_stream_e.Base.{
  ℕ, zero, suc, ◌-◌, ◌<◌, ◌≤◌, Bytes, List, [], ◌∷◌, ◌++◌, Option, none, some, ◌≡◌, refl, ◌∙◌,
  arith, length, length-append, append_assoc, append-nil,
}
use arcade_launcher_stream_e.Ipc.Frame.{max_frame, read_frame, frame, write_frame, sent}
use arcade_launcher_stream_e.Ipc.Frame.RoundTrip.{
  wire, read_frame_empty, read_frame-wire, write_frame-wire,
}
use arcade_launcher_stream_e.Json.{Value}
use arcade_launcher_stream_e.Json.Dump.{dump}
use arcade_launcher_stream_e.Json.Parser.{parse}
use arcade_launcher_stream_e.Json.Floats.{Floats}
use arcade_launcher_stream_e.Ipc.Server.{Handlers, process, run, clean, Transport}

-- Some frames on the wire.
abbrev pub wires : List Bytes → Bytes
wires [] = []
wires (p ∷ ps) = wire p ++ wires ps

-- Every payload fits a frame.
abbrev pub FitFrames : List Bytes → Type 0
FitFrames [] = Unit
FitFrames (p ∷ ps) = (length p ≤ max_frame) × FitFrames ps

abbrev pub answers : Option Value → List Value → List Value
answers none rs = rs
answers (some r) rs = r ∷ rs

module _ ⦃fl : Floats⦄ {S : Type 0} (hs : Handlers S) where
  -- The answers to some payloads, and the state after them.
  unfoldable pub serve : List Bytes → S → List Value × S
  serve [] s = ([], s)
  serve (raw ∷ raws) s =
      let (o, s') = process hs (parse raw) s in let (rs, s'') = serve raws s' in (answers o rs, s'')

abbrev pub dumps : ⦃fl : Floats⦄ → List Value → List Bytes
dumps [] = []
dumps (r ∷ rs) = dump r ∷ dumps rs

-- The state of the connection when `sends` have gone out and all that came in is read.
abbrev pub after : Transport → Bytes → Transport
after t out = record t { incoming = []; outgoing = t.outgoing ++ out; room = t.room - length out }

module _ ⦃fl : Floats⦄ {S : Type 0} (hs : Handlers S) where
  serve_step :
      (raw : Bytes) (raws : List Bytes) (s s' : S) (o : Option Value)
      → process hs (parse raw) s ≡ (o, s')
      → serve hs (raw ∷ raws) s ≡ (answers o (serve hs raws s').0, (serve hs raws s').1)
  unfolding serve
  serve_step raw raws s s' o e = rw e

  run_silent :
      (raw : Bytes) (s s' : S) (t t' : Transport) (f : ℕ)
      → read_frame t ≡ (frame raw, t')
      → process hs (parse raw) s ≡ (none, s')
      → run hs (suc f) t s ≡ run hs f t' s'
  unfolding run
  run_silent raw s s' t t' f p q = rw (p, q)

  run_answer :
      (raw : Bytes) (res : Value) (s s' : S) (t t' t'' : Transport) (f : ℕ)
      → read_frame t ≡ (frame raw, t')
      → process hs (parse raw) s ≡ (some res, s')
      → write_frame (dump res) t' ≡ (sent, t'')
      → run hs (suc f) t s ≡ run hs f t'' s'
  unfolding run
  run_answer raw res s s' t t' t'' f p q r = rw (p, q, r)

  -- What `run` promises for these frames.
  abbrev Serves : List Bytes → S → Transport → ℕ → Type 0
  Serves raws s t f =
      run hs f t s ≡ (clean, after t (wires (dumps (serve hs raws s).0)), (serve hs raws s).1)

  Serves-end : (s : S) (t : Transport) (f : ℕ) → t.incoming ≡ [] → Serves [] s t (suc f)
  unfolding run serve
  Serves-end s t f e = rw (read_frame_empty t e) (ground (arith, append-nil t.outgoing))

  Serves-round :
      (raw : Bytes) (raws : List Bytes) (s s' : S) (o : Option Value) (t : Transport) (f : ℕ)
      → process hs (parse raw) s ≡ (o, s')
      → t.incoming ≡ wires (raw ∷ raws)
      → length raw ≤ max_frame
      → FitFrames (dumps (answers o (serve hs raws s').0))
      → length (wires (dumps (answers o (serve hs raws s').0))) ≤ t.room
      → ((u : Transport)
          → u.incoming ≡ wires raws
          → FitFrames (dumps (serve hs raws s').0)
          → length (wires (dumps (serve hs raws s').0)) ≤ u.room
          → Serves raws s' u f)
      → Serves (raw ∷ raws) s t (suc f)
  Serves-round raw raws s s' none t f q e k m r ih =
      let read = read_frame-wire raw (wires raws) t k e in
      run_silent raw s s' t (record t { incoming = wires raws }) f read q
      ∙ ih (record t { incoming = wires raws }) refl m r
      ∙ rw (serve_step raw raws s s' none q)
  Serves-round raw raws s s' (some res) t f q e k m r ih =
      let read = read_frame-wire raw (wires raws) t k e in
      let t' = record t { incoming = wires raws } in
      let later = wires (dumps (serve hs raws s').0) in
      let longer = length-append {0} (wire (dump res)) later in
      let write = write_frame-wire (dump res) t' m.0 (omega (arith, longer)) in
      let room : t.room - length (wire (dump res)) - length later
          ≡ t.room - length (wire (dump res) ++ later) =
        omega (arith, longer) in
      run_answer raw res s s' t t' _ f read q write
      ∙ ih _ refl m.1 (omega (arith, longer))
      ∙ rw (serve_step raw raws s s' (some res) q, room, append_assoc)

  -- With the frames `raws` coming in and room for the answers, `run` ends cleanly, having sent
  -- exactly the answers, in order.
  pub run-serve :
      (raws : List Bytes) (s : S) (t : Transport) (f : ℕ)
      → length raws < f
      → t.incoming ≡ wires raws
      → FitFrames raws
      → FitFrames (dumps (serve hs raws s).0)
      → length (wires (dumps (serve hs raws s).0)) ≤ t.room
      → run hs f t s ≡ (clean, after t (wires (dumps (serve hs raws s).0)), (serve hs raws s).1)
  run-serve raws s t zero h e k m r = elim h [ ]
  run-serve [] s t (suc f) h e k m r = Serves-end s t f e
  run-serve (raw ∷ raws) s t (suc f) h e k m r =
      let (o, s') = process hs (parse raw) s in
      let step = serve_step raw raws s s' o refl in
      Serves-round raw raws s s' o t f refl e k.0 (rw step at m) (rw step at r)
        (λ u e' m' r'. run-serve raws s' u f (omega arith) e' k.1 m' r')
