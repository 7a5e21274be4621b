-- ===== src/Client/Session/Farewells.antt =====
-- What brings the worker of src/client/stream_session.cpp to its place when no `stop` waits for it.
use arcade_launcher_stream_e.Client.Session.Invariant.{Consistent, Reachable-Consistent}
use arcade_launcher_stream_e.Client.Session.Steps.{
  Reachable, WorkerStep, prepares, connects, loops, disconnects, tears_down, reports, works, calls,
  starts, stops, joins, initial, after,
}
use arcade_launcher_stream_e.Client.Session.{
  StartInfo, StateEvent, Session, Callback, Limelight, Worker, start, listen, send, terminates,
  joinable, no_worker, opening, connecting, streaming, closing, tearing_down, reporting, finished,
  prepare, after_connect, loop_round, disconnect, tear_down, report, emit_state, stop_begin,
  stop_end, equals, stage_starting, stage_failed, elapsed, connection_terminated,
  connection_started,
}
use arcade_launcher_stream_e.Base.{
  if◌then◌else◌, ℕ, Bytes, codes, Bool, true, false, not, ◌&&◌, List, [], ◌∷◌, ◌++◌, none, some,
  ◌≡◌, refl, ap, ◌∙◌, inl, inr, append_assoc, Bool-cases, ℤ, to_string_ℤ, ◌≢◌, subst, Option, leb,
  length, ◌==◌, is_empty,
}

-- The last event of a stream that ends by itself
pub data Farewell (phase : Bytes) (reason : Bytes) : Type 0 where
  window_closed : phase ≡ codes "ended" → reason ≡ codes "window closed" → Farewell phase reason
  not_connected :
      (rc : ℤ)
      → phase ≡ codes "error"
      → reason ≡ codes "LiStartConnection failed (code " ++ (to_string_ℤ rc ++ codes ")")
      → Farewell phase reason

-- One of the events is such a last event.
pub record Farewells (events : List StateEvent) : Type 0 where
  pub phase : Bytes
  pub reason : Bytes
  pub said : Farewell phase reason
  pub before : List StateEvent
  pub later : List StateEvent
  pub at :
      events ≡ before ++ (record { phase = phase; reason = reason; native_window = [] } ∷ later)

-- What has brought the worker to its place, where no `stop` waits for it
unfoldable pub Cause : Session → Worker → Type 0
Cause s no_worker = Unit
Cause s (opening _) = s.stop_requested ≡ false
Cause s (connecting _ _) = s.stop_requested ≡ false
Cause s (streaming _ _) = s.stop_requested ≡ false
Cause s (closing user_closed _) = user_closed ≡ true
Cause s (tearing_down user_closed _) = user_closed ≡ true
Cause s (reporting phase reason) = Farewell phase reason
Cause s finished = Farewells s.events

unfoldable pub Caused : Session → Type 0
Caused s = s.stopping ≡ false → Cause s s.worker

Farewells-append : (events more : List StateEvent) → Farewells events → Farewells (events ++ more)
Farewells-append events more f = record {
  phase = f.phase;
  reason = f.reason;
  said = f.said;
  before = f.before;
  later = f.later ++ more;
  at = ap (λ l. l ++ more) f.at ∙ append_assoc f.before _ more;
}

send-Caused : (e : StateEvent) (s : Session) → Caused s → Caused (send e s)
unfolding Caused Cause send
send-Caused e s k = from s.sink
  where
    more : (w : Worker) → Cause s w → Cause (record s { events = s.events ++ (e ∷ []) }) w
    more no_worker c = tt
    more (opening _) c = c
    more (connecting _ _) c = c
    more (streaming _ _) c = c
    more (closing _ _) c = c
    more (tearing_down _ _) c = c
    more (reporting _ _) c = c
    more finished c = Farewells-append s.events (e ∷ []) c

    from : (b : Bool) → Caused (if b then record s { events = s.events ++ (e ∷ []) } else s)
    from false = k
    from true = λ q. more s.worker (k q)

listen-Caused : (li : Limelight) (c : Callback) (s : Session) → Caused s → Caused (listen li c s)
unfolding listen emit_state
listen-Caused li (stage_starting stage) s k = send-Caused _ s k
listen-Caused li (stage_failed stage code) s k = send-Caused _ s k
listen-Caused li connection_started s k = send-Caused _ s k
listen-Caused li (connection_terminated code) s k =
    elim (Bool-cases (equals code li.graceful_termination)) [
      | inl e ↦ rw e (send-Caused _ s k)
      | inr e ↦ rw e (send-Caused _ s k)
    ]

module _ (s : Session) (k : Caused s) where
  at_place : (w : Worker) → s.worker ≡ w → s.stopping ≡ false → Cause s w
  unfolding Caused
  at_place w e q = subst (λ x. Cause s x) e (k q)

  prepare-Caused :
      (info : StartInfo) (handle : Option Bytes)
      → s.worker ≡ opening info
      → Caused (prepare info handle s)
  unfolding Caused Cause prepare
  prepare-Caused info none e = λ q. at_place (opening info) e q
  prepare-Caused info (some handle) e = λ q. at_place (opening info) e q

  after_connect-Caused :
      (info : StartInfo) (w : Bool) (rc : ℤ) (now : ℕ)
      → s.worker ≡ connecting info w
      → Caused (after_connect w rc now s)
  unfolding Caused Cause after_connect
  after_connect-Caused info w rc now e = elim (Bool-cases (equals rc 0)) [
    | inl z ↦ rw z (λ q. at_place (connecting info w) e q)
    | inr z ↦ rw z (λ q. not_connected rc refl refl)
  ]

  loop_round-Caused :
      (w : Bool) (last : ℕ) (alive : Bool) (now : ℕ)
      → s.worker ≡ streaming w last
      → Caused (loop_round w last alive now s)
  unfolding Caused Cause loop_round
  loop_round-Caused w last alive now e = elim (Bool-cases s.stop_requested) [
    | inl z ↦ rw z (λ q.
        let no : s.stop_requested ≡ false = at_place (streaming w last) e q in absurd (cc (z, no)))
    | inr z ↦ elim (Bool-cases (w && not alive)) [
      | inl y ↦ simp (z, y) (λ q. refl)
      | inr y ↦ elim (Bool-cases (leb 1000 (elapsed now last))) [
        | inl x ↦ simp (z, y, x) (λ q. refl)
        | inr x ↦ simp (z, y, x) k
      ]
    ]
  ]

  disconnect-Caused : (u w : Bool) → s.worker ≡ closing u w → Caused (disconnect u w s)
  unfolding Caused Cause disconnect
  disconnect-Caused u w e = λ q. at_place (closing u w) e q

  tear_down-Caused : (u w : Bool) → s.worker ≡ tearing_down u w → Caused (tear_down u s)
  unfolding Caused Cause tear_down
  tear_down-Caused true w e = λ q. window_closed refl refl
  tear_down-Caused false w e =
      λ q. let no : false ≡ true = at_place (tearing_down false w) e q in absurd (cc no)

  report-Caused :
      (phase reason : Bytes)
      → s.sink ≡ true
      → s.worker ≡ reporting phase reason
      → Caused (report phase reason s)
  unfolding Caused Cause report emit_state send
  report-Caused phase reason on e = rw on (λ q. record {
    phase = phase;
    reason = reason;
    said = at_place (reporting phase reason) e q;
    before = s.events;
    later = [];
    at = refl;
  })

  start-Caused : (info : StartInfo) → (start info s).0 ≢ terminates → Caused (start info s).1
  unfolding Caused Cause start
  start-Caused info n = elim (Bool-cases s.running) [
    | inl a ↦ rw a k
    | inr a ↦ elim (Bool-cases (length info.ri_key == 16)) [
      | inr b ↦ rw (a, b) k
      | inl b ↦ elim (Bool-cases (is_empty info.rtsp_session_url)) [
        | inl c ↦ rw (a, b, c) k
        | inr c ↦ elim (Bool-cases (joinable s.worker)) [
          | inl d ↦ absurd (n (rw (a, b, c, d) refl))
          | inr d ↦ rw (a, b, c, d) (λ q. refl)
        ]
      ]
    ]
  ]

  stop_begin-Caused : Caused (stop_begin s)
  unfolding Caused Cause stop_begin stop_end
  stop_begin-Caused = elim (Bool-cases (joinable s.worker)) [
    | inl d ↦ rw d (λ q. absurd (cc q))
    | inr d ↦ rw d (λ q. tt)
  ]

  stop_end-Caused : Caused (stop_end s)
  unfolding Caused Cause stop_end
  stop_end-Caused = λ q. tt

work-Caused :
    (li : Limelight) (s t : Session) → Consistent s → Caused s → WorkerStep li s t → Caused t
work-Caused li s t c k (prepares info handle e f) = rw f (prepare-Caused s k info handle e)
work-Caused li s t c k (connects info w rc now e f) =
    rw f (after_connect-Caused s k info w rc now e)
work-Caused li s t c k (loops w last alive now e f) =
    rw f (loop_round-Caused s k w last alive now e)
work-Caused li s t c k (disconnects u w e f) = rw f (disconnect-Caused s k u w e)
work-Caused li s t c k (tears_down u w e f) = rw f (tear_down-Caused s k u w e)
work-Caused li s t c k (reports phase reason e f) =
    rw f (report-Caused s k phase reason (c.sinks ∙ ap (λ w. joinable w) e) e)

pub Reachable-Caused : (li : Limelight) {s : Session} → Reachable li s → Caused s
unfolding Caused Cause
Reachable-Caused li (initial e) = rw e (λ q. tt)
Reachable-Caused li (after {s} {t} r (works w)) =
    work-Caused li s t (Reachable-Consistent li r) (Reachable-Caused li r) w
Reachable-Caused li (after {s} r (calls c m e)) =
    rw e (listen-Caused li c s (Reachable-Caused li r))
Reachable-Caused li (after {s} r (starts info q n e)) =
    rw e (start-Caused s (Reachable-Caused li r) info n)
Reachable-Caused li (after {s} r (stops q e)) = rw e (stop_begin-Caused s (Reachable-Caused li r))
Reachable-Caused li (after {s} r (joins q f e)) = rw e (stop_end-Caused s (Reachable-Caused li r))
