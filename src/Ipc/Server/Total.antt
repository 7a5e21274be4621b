-- ===== src/Ipc/Server/Total.antt =====
-- The loop of `run` ends: every round reads a header from a finite input.
use arcade_launcher_stream_e.Ipc.Frame.{sent, closed}
use arcade_launcher_stream_e.Ipc.Frame.Effects.{write_frame-incoming, read_frame-shorter}
use arcade_launcher_stream_e.Base.{
  ℕ, zero, suc, ◌<◌, Option, none, some, ◌≡◌, ◌≢◌, refl, arith, length,
}
use arcade_launcher_stream_e.Json.{Value}
use arcade_launcher_stream_e.Json.Dump.{dump}
use arcade_launcher_stream_e.Json.Parser.{parse}
use arcade_launcher_stream_e.Json.Floats.{Floats}
use arcade_launcher_stream_e.Ipc.Server.{
  Handlers, process, run, read_frame, write_frame, Transport, after_write, after_process,
  after_read, out_of_fuel, Written, Read, unsent, broken, frame,
}

module _ ⦃fl : Floats⦄ {S : Type 0} (hs : Handlers S) where
  -- A `run` from `t` keeps within `f` rounds.
  abbrev Ends : ℕ → Transport → S → Type 0
  Ends f t s = (run hs f t s).0 ≢ out_of_fuel

  after_write-Ends :
      (f : ℕ) (s : S) (w : Written × Transport)
      → Ends f w.1 s
      → (after_write hs (λ t' s'. run hs f t' s') s w).0 ≢ out_of_fuel
  unfolding after_write
  after_write-Ends f s (sent, t) h = h
  after_write-Ends f s (unsent e, t) h = cc

  after_process-Ends :
      (f : ℕ) (t : Transport) (p : Option Value × S)
      → ((u : Transport) → u.incoming ≡ t.incoming → Ends f u p.1)
      → (after_process hs (λ t' s'. run hs f t' s') t p).0 ≢ out_of_fuel
  unfolding after_process
  after_process-Ends f t (none, s) h = h t refl
  after_process-Ends f t (some res, s) h =
      after_write-Ends f s (write_frame (dump res) t) (h _ (write_frame-incoming (dump res) t))

  after_read-Ends :
      (f : ℕ) (s : S) (t : Transport) (r : Read × Transport)
      → read_frame t ≡ r
      → ((u : Transport) (s' : S) → length u.incoming < length t.incoming → Ends f u s')
      → (after_read hs (λ t' s'. run hs f t' s') s r).0 ≢ out_of_fuel
  unfolding after_read
  after_read-Ends f s t (closed, t') e h = cc
  after_read-Ends f s t (broken m, t') e h = cc
  after_read-Ends f s t (frame raw, t') e h =
      after_process-Ends f t' (process hs (parse raw) s)
        (λ u same. h u _ (rw same (read_frame-shorter t t' raw e)))

  run_round :
      (f : ℕ) (t : Transport) (s : S)
      → (after_read hs (λ t' s'. run hs f t' s') s (read_frame t)).0 ≢ out_of_fuel
      → Ends (suc f) t s
  unfolding run
  run_round f t s h = h

  -- Fuel above the length of the input is enough, whatever the frames and the handlers are.
  pub run-ne-out_of_fuel :
      (f : ℕ) (t : Transport) (s : S) → length t.incoming < f → (run hs f t s).0 ≢ out_of_fuel
  run-ne-out_of_fuel zero t s h = elim h [ ]
  run-ne-out_of_fuel (suc f) t s h = run_round f t s (
      after_read-Ends f s t (read_frame t) refl (λ u s' k. run-ne-out_of_fuel f u s' (omega arith)))
