-- ===== src/Client/Session/Ending.antt =====
-- A call of `stop` that waits for the worker comes to its end, if the calls into the library and the
-- window return.
use arcade_launcher_stream_e.Client.Session.Invariant.{Consistent, Reachable-Consistent}
use arcade_launcher_stream_e.Client.Session.Steps.{
  WorkerStep, Reachable, may_call, after, Step, prepares, connects, loops, disconnects, tears_down,
  reports,
}
use arcade_launcher_stream_e.Client.Session.Safety.{steps_left, steps_left-lt}
use arcade_launcher_stream_e.Client.Session.{
  Limelight, send, Session, listen, prepare, StateEvent, Callback, after_connect, Worker,
  stage_starting, loop_round, joinable, reporting, finished, stage_failed, disconnect, opening,
  tearing_down, connection_terminated, tear_down, closing, equals, report, connecting, streaming,
  emit_state, no_worker, connection_started,
}
use arcade_launcher_stream_e.Base.{
  ℕ, zero, suc, ◌+◌, ◌≤◌, codes, true, false, none, some, ◌≡◌, ◌⊎◌, refl, ap, ◌∙◌, inl, inr, arith,
  Bool-cases, bytes_eq, pos,
}

-- What can happen while the control thread waits in `stop`: steps of the worker, which are counted,
-- and calls of the library.
pub data Waiting (li : Limelight) (s : Session) : ℕ → Session → Type 0 where
  here : Waiting li s zero s
  works : {n : ℕ} {t u : Session} → Waiting li s n t → WorkerStep li t u → Waiting li s (suc n) u
  calls :
      {n : ℕ} {t u : Session} (c : Callback)
      → Waiting li s n t
      → may_call li t u ≡ true
      → u ≡ listen li c t
      → Waiting li s n u

send-worker : (e : StateEvent) (s : Session) → (send e s).worker ≡ s.worker
unfolding send
send-worker e s = ground arith

send-stop_requested : (e : StateEvent) (s : Session) → (send e s).stop_requested ≡ s.stop_requested
unfolding send
send-stop_requested e s = ground arith

send-stopping : (e : StateEvent) (s : Session) → (send e s).stopping ≡ s.stopping
unfolding send
send-stopping e s = ground arith

-- A call of the library only adds an event.
pub data Adds (s : Session) (t : Session) : Type 0 where
  adds : (e : StateEvent) → bytes_eq e.phase (codes "window") ≡ false → t ≡ send e s → Adds s t

pub listen-Adds : (li : Limelight) (c : Callback) (s : Session) → Adds s (listen li c s)
unfolding listen bytes_eq
listen-Adds li (stage_starting stage) s = adds _ refl refl
listen-Adds li (stage_failed stage code) s = adds _ refl refl
listen-Adds li connection_started s = adds _ refl refl
listen-Adds li (connection_terminated code) s =
    elim (Bool-cases (equals code li.graceful_termination)) [
      | inl e ↦ rw e (adds _ refl refl)
      | inr e ↦ rw e (adds _ refl refl)
    ]

pub WorkerStep-stopping :
    (li : Limelight) {s t : Session} → WorkerStep li s t → t.stopping ≡ s.stopping
unfolding prepare after_connect loop_round disconnect tear_down report emit_state send
WorkerStep-stopping li (prepares info none h e) = ground arith
WorkerStep-stopping li (prepares info (some handle) h e) = ground arith
WorkerStep-stopping li (connects info w rc now h e) = ground arith
WorkerStep-stopping li (loops w last alive now h e) = ground arith
WorkerStep-stopping li (disconnects u w h e) = ground arith
WorkerStep-stopping li (tears_down u w h e) = ground arith
WorkerStep-stopping li (reports phase reason h e) = ground arith

-- What a path keeps of the state in which `stop` began to wait.
record Kept (li : Limelight) (s : Session) (n : ℕ) (t : Session) : Type 0 where
  reachable : Reachable li t
  waits : t.stopping ≡ true
  requested : t.stop_requested ≡ true
  bounded : n + steps_left t.worker ≤ steps_left s.worker

module _ (li : Limelight) (s : Session) where
  Kept-works : (n : ℕ) (t u : Session) → Kept li s n t → WorkerStep li t u → Kept li s (suc n) u
  Kept-works n t u k w =
      let (fewer, still) = steps_left-lt li k.requested w in
      record {
        reachable = after k.reachable (Step.works w);
        waits = WorkerStep-stopping li w ∙ k.waits;
        requested = still;
        bounded = omega (arith, k.bounded);
      }

  Kept-calls :
      (n : ℕ) (t u : Session) (c : Callback)
      → Kept li s n t
      → may_call li t u ≡ true
      → u ≡ listen li c t
      → Kept li s n u
  Kept-calls n t u c k may same = from (listen-Adds li c t)
    where
      from : Adds t (listen li c t) → Kept li s n u
      from (adds e _ h) = record {
        reachable = after k.reachable (Step.calls c may same);
        waits = ap (λ x. x.stopping) (same ∙ h) ∙ (send-stopping e t ∙ k.waits);
        requested = ap (λ x. x.stop_requested) (same ∙ h) ∙ (send-stop_requested e t ∙ k.requested);
        bounded =
            let w : u.worker ≡ t.worker = ap (λ x. x.worker) (same ∙ h) ∙ send-worker e t in
            rw w k.bounded;
      }

  Waiting-Kept : (n : ℕ) (t : Session) → Kept li s zero s → Waiting li s n t → Kept li s n t
  Waiting-Kept _ _ k here = k
  Waiting-Kept _ _ k (works {n} {t} {u} p w) = Kept-works n t u (Waiting-Kept n t k p) w
  Waiting-Kept _ _ k (calls {n} {t} {u} c p may same) =
      Kept-calls n t u c (Waiting-Kept n t k p) may same

-- A worker that has not returned can go on, whatever the answers to its calls are.
progress :
    (li : Limelight) (s : Session) (w : Worker)
    → s.worker ≡ w
    → joinable w ≡ true
    → (w ≡ finished) ⊎ ((t : Session) × WorkerStep li s t)
progress li s no_worker h j = absurd (cc)
progress li s finished h j = inl refl
progress li s (opening info) h j = inr (_, prepares info none h refl)
progress li s (connecting info w) h j = inr (_, connects info w (pos 0) 0 h refl)
progress li s (streaming w last) h j = inr (_, loops w last true 0 h refl)
progress li s (closing u w) h j = inr (_, disconnects u w h refl)
progress li s (tearing_down u w) h j = inr (_, tears_down u w h refl)
progress li s (reporting phase reason) h j = inr (_, reports phase reason h refl)

pub steps_left-le : (w : Worker) → steps_left w ≤ 6
unfolding steps_left
steps_left-le no_worker = omega arith
steps_left-le finished = omega arith
steps_left-le (reporting _ _) = omega arith
steps_left-le (tearing_down _ _) = omega arith
steps_left-le (closing _ _) = omega arith
steps_left-le (streaming _ _) = omega arith
steps_left-le (connecting _ _) = omega arith
steps_left-le (opening _) = omega arith

-- While `stop` waits in a reachable state, the worker makes six steps at most, however the library
-- calls back in between, and as long as it has not returned it can make one: `stop` joins it.
pub stop-ends :
    (li : Limelight) {s t : Session} {n : ℕ}
    → Reachable li s
    → s.stopping ≡ true
    → Waiting li s n t
    → (n ≤ 6) × ((t.worker ≡ finished) ⊎ ((u : Session) × WorkerStep li t u))
stop-ends li {s} {t} {n} r h p = from (Reachable-Consistent li r)
  where
    ends : Kept li s n t → (n ≤ 6) × ((t.worker ≡ finished) ⊎ ((u : Session) × WorkerStep li t u))
    ends k = (
      omega (arith, k.bounded, steps_left-le s.worker),
      progress li t t.worker refl (joined (Reachable-Consistent li k.reachable)),
    )
      where
        joined : Consistent t → joinable t.worker ≡ true
        joined c = ground (arith, k.waits)

    from : Consistent s → (n ≤ 6) × ((t.worker ≡ finished) ⊎ ((u : Session) × WorkerStep li t u))
    from c = ends (
        Waiting-Kept li s n t
          (record { reachable = r; waits = h; requested = ground arith; bounded = omega arith }) p)
