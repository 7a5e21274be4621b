-- ===== src/Client/Session/Stopping.antt =====
-- `stop` as a whole leaves nothing of a stream.
use arcade_launcher_stream_e.Client.Session.Ending.{WorkerStep-stopping, steps_left-le}
use arcade_launcher_stream_e.Client.Session.Invariant.{Consistent, Reachable-Consistent}
use arcade_launcher_stream_e.Client.Session.Safety.{steps_left, steps_left-lt, Quiet, stop-Quiet}
use arcade_launcher_stream_e.Client.Session.{
  Limelight, Session, Worker, finished, no_worker, reporting, opening, tearing_down, closing,
  connecting, streaming, joinable, stop_end, stop_begin,
}
use arcade_launcher_stream_e.Client.Session.Steps.{
  run_at, Answers, Reachable, run_steps, WorkerStep, prepares, after, connects, Step, loops,
  disconnects, tears_down, reports, stop_session,
}
use arcade_launcher_stream_e.Base.{
  ℕ, zero, suc, ◌<◌, ◌≤◌, true, false, if◌then◌else◌, ◌≡◌, ◌⊎◌, refl, sym, ap, ◌∙◌, inl, inr, arith,
  Bool-cases, subst,
}

run_at-WorkerStep :
    (li : Limelight) (a : Answers) (s : Session) (w : Worker)
    → s.worker ≡ w
    → (w ≡ no_worker) ⊎ (w ≡ finished) ⊎ WorkerStep li s (run_at a w s)
unfolding run_at
run_at-WorkerStep li a s no_worker h = inl refl
run_at-WorkerStep li a s finished h = inr (inl refl)
run_at-WorkerStep li a s (opening info) h = inr (inr (prepares info a.handle h refl))
run_at-WorkerStep li a s (connecting info w) h = inr (inr (connects info w a.rc a.now h refl))
run_at-WorkerStep li a s (streaming w last) h = inr (inr (loops w last a.alive a.now h refl))
run_at-WorkerStep li a s (closing u w) h = inr (inr (disconnects u w h refl))
run_at-WorkerStep li a s (tearing_down u w) h = inr (inr (tears_down u w h refl))
run_at-WorkerStep li a s (reporting phase reason) h = inr (inr (reports phase reason h refl))

-- The worker is asked to stop, and waited for.
record Asked (li : Limelight) (s : Session) : Type 0 where
  reachable : Reachable li s
  waits : s.stopping ≡ true
  requested : s.stop_requested ≡ true

run_at_finished : (a : Answers) (s : Session) (w : Worker) → w ≡ finished → run_at a w s ≡ s
unfolding run_at
run_at_finished a s w h = rw h refl

module _ (li : Limelight) (a : Answers) where
  next_step :
      (s : Session)
      → Asked li s
      → Asked li (run_at a s.worker s)
        × ((s.worker ≡ finished) ⊎ (steps_left (run_at a s.worker s).worker < steps_left s.worker))
  next_step s k = elim (run_at-WorkerStep li a s s.worker refl) [
    | inl e ↦ absurd (lost (Reachable-Consistent li k.reachable) e)
    | inr (inl e) ↦ (subst (λ t. Asked li t) (sym (run_at_finished a s s.worker e)) k, inl e)
    | inr (inr w) ↦
        let (fewer, still) = steps_left-lt li k.requested w in
        (
          record {
            reachable = after k.reachable (Step.works w);
            waits = WorkerStep-stopping li w ∙ k.waits;
            requested = still;
          },
          inr fewer,
        )
  ]
    where
      lost : Consistent s → s.worker ≡ no_worker → ⊥
      lost c e = ground (arith, k.waits, c.waits)

  no_steps_left : (w : Worker) → steps_left w ≤ 0 → (w ≡ finished) ⊎ (w ≡ no_worker)
  unfolding steps_left
  no_steps_left finished h = inl refl
  no_steps_left no_worker h = inr refl
  no_steps_left (reporting _ _) h = absurd (omega arith)
  no_steps_left (tearing_down _ _) h = absurd (omega arith)
  no_steps_left (closing _ _) h = absurd (omega arith)
  no_steps_left (streaming _ _) h = absurd (omega arith)
  no_steps_left (connecting _ _) h = absurd (omega arith)
  no_steps_left (opening _) h = absurd (omega arith)

  run_steps-finished :
      (n : ℕ) (s : Session)
      → Asked li s
      → steps_left s.worker ≤ n
      → Asked li (run_steps n a s) × ((run_steps n a s).worker ≡ finished)
  unfolding run_steps
  run_steps-finished zero s k h = (k, from (Reachable-Consistent li k.reachable))
    where
      from : Consistent s → s.worker ≡ finished
      from c = elim (no_steps_left s.worker h) [
        | inl e ↦ e
        | inr e ↦ absurd (ground (arith, k.waits, c.waits))
      ]
  run_steps-finished (suc n) s k h =
      let (k', fewer) = next_step s k in run_steps-finished n (run_at a s.worker s) k' (less fewer)
    where
      less :
          (s.worker ≡ finished) ⊎ (steps_left (run_at a s.worker s).worker < steps_left s.worker)
          → steps_left (run_at a s.worker s).worker ≤ n
      less (inl e) =
          let stays : run_at a s.worker s ≡ s = run_at_finished a s s.worker e in
          let none_left : steps_left (run_at a s.worker s).worker ≡ 0 =
            ap (λ t. steps_left t.worker) stays ∙ (ap steps_left e ∙ unfold steps_left in refl) in
          omega (arith, none_left)
      less (inr fewer) = omega (arith, h)

  -- What `stop` leaves
  record Stopped (s : Session) : Type 0 where
    reachable : Reachable li s
    quiet : Quiet s
    returned : s.stopping ≡ false

  joinable-no_worker : (w : Worker) → joinable w ≡ false → w ≡ no_worker
  joinable-no_worker no_worker h = refl
  joinable-no_worker finished h = absurd (cc h)
  joinable-no_worker (opening _) h = absurd (cc h)
  joinable-no_worker (connecting _ _) h = absurd (cc h)
  joinable-no_worker (streaming _ _) h = absurd (cc h)
  joinable-no_worker (closing _ _) h = absurd (cc h)
  joinable-no_worker (tearing_down _ _) h = absurd (cc h)
  joinable-no_worker (reporting _ _) h = absurd (cc h)

  stop_end-stopping : (s : Session) → (stop_end s).stopping ≡ false
  unfolding stop_end
  stop_end-stopping s = refl

  stop_begin-idle : (s : Session) → joinable s.worker ≡ false → (stop_begin s).stopping ≡ false
  unfolding stop_begin stop_end
  stop_begin-idle s h = ground arith

  stop_begin-Asked :
      (s : Session)
      → Reachable li s
      → s.stopping ≡ false
      → joinable s.worker ≡ true
      → Asked li (stop_begin s)
  unfolding stop_begin
  stop_begin-Asked s r h j = record {
    reachable = after r (Step.stops h refl);
    waits = ground arith;
    requested = ground arith;
  }

  stop_session-Stopped :
      (s : Session) → Reachable li s → s.stopping ≡ false → Stopped (stop_session a s)
  unfolding stop_session
  stop_session-Stopped s r h = elim (Bool-cases (joinable s.worker)) [
    | inr j ↦
        subst Stopped
          (ap (λ b. if b then stop_end (run_steps 6 a (stop_begin s)) else stop_begin s) (sym j))
          (record {
            reachable = after r (Step.stops h refl);
            quiet = (stop-Quiet li r).0 (joinable-no_worker s.worker j);
            returned = stop_begin-idle s j;
          })
    | inl j ↦
        let asked = stop_begin-Asked s r h j in
        let (k, done) =
          run_steps-finished 6 (stop_begin s) asked (steps_left-le (stop_begin s).worker) in
        subst Stopped
          (ap (λ b. if b then stop_end (run_steps 6 a (stop_begin s)) else stop_begin s) (sym j))
          (record {
            reachable = after k.reachable (Step.joins k.waits done refl);
            quiet = (stop-Quiet li k.reachable).1 done;
            returned = stop_end-stopping (run_steps 6 a (stop_begin s));
          })
  ]

-- After `stop` in a reachable state, the session is quiet, whatever the calls of the worker answer: no
-- thread, connection, window or sink is left. A second `stop` leaves it so.
pub stop_session-Quiet :
    (li : Limelight) (a b : Answers) {s : Session}
    → Reachable li s
    → s.stopping ≡ false
    → Quiet (stop_session a s) × Quiet (stop_session b (stop_session a s))
stop_session-Quiet li a b {s} r h =
    let once = stop_session-Stopped li a s r h in
    let twice = stop_session-Stopped li b (stop_session a s) once.reachable once.returned in
    (once.quiet, twice.quiet)
