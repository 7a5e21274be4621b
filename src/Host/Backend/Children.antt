-- ===== src/Host/Backend/Children.antt =====
-- No child is lost: each one that was started is waited for once, or is the one at hand.
use arcade_launcher_stream_e.Host.Backend.{
  Poll, still_running, ended, wait_failed, lose, on_poll, next_wait, Backend, running, System, reap,
  start, wait_loop, stop, next_poll, spawn, unless_running, force, if_running, next_fork,
}
use arcade_launcher_stream_e.Base.{
  ◌+◌, ◌≢◌, count, count-append, ℕ, zero, suc, Bool, true, false, List, [], ◌∷◌, ◌++◌, ◌==◌,
  if◌then◌else◌, ◌≡◌, refl, sym, ap, ◌∙◌, inl, inr, arith, append-nil, Bool-cases, is_empty,
}

-- the child at hand, if there is one
unfoldable pub current : ℕ → List ℕ
current pid = if pid == 0 then [] else pid ∷ []

-- Each child that was started was waited for once, or let go of because `waitpid` failed, or is the
-- one at hand; and where no `waitpid` has failed, this is so in the order of the starts.
pub record AccountsFor (b : Backend) (w : System) : Type 0 where
  pub counted :
      (k : ℕ) → count k w.spawned ≡ count k w.reaped + count k w.lost + count k (current b.pid)
  pub ordered : w.lost ≡ [] → w.spawned ≡ w.reaped ++ current b.pid

append_one-ne-nil : (xs : List ℕ) (x : ℕ) → xs ++ (x ∷ []) ≢ []
append_one-ne-nil [] x e = absurd (cc e)
append_one-ne-nil (y ∷ xs) x e = absurd (cc e)

current_child : (pid : ℕ) → (pid == 0) ≡ false → current pid ≡ pid ∷ []
unfolding current
current_child pid h = rw h

current_none : (pid : ℕ) → pid ≡ 0 → current pid ≡ []
unfolding current
current_none pid h = rw h

reap-AccountsFor :
    (b : Backend) (w : System)
    → (b.pid == 0) ≡ false
    → AccountsFor b w
    → AccountsFor (reap b w).0 (reap b w).1
reap-AccountsFor b w h a = record {
  counted = λ k.
      a.counted k
      ∙ rw (current_child b.pid h, current_none 0 refl)
          (omega (arith, count-append k w.reaped (b.pid ∷ [])));
  ordered = λ e.
      a.ordered e
      ∙ rw (current_child b.pid h, current_none 0 refl)
          (sym (append-nil (w.reaped ++ (b.pid ∷ []))));
}

lose-AccountsFor :
    (b : Backend) (w : System)
    → (b.pid == 0) ≡ false
    → AccountsFor b w
    → AccountsFor (lose b w).0 (lose b w).1
lose-AccountsFor b w h a = record {
  counted = λ k.
      a.counted k
      ∙ rw (current_child b.pid h, current_none 0 refl)
          (omega (arith, count-append k w.lost (b.pid ∷ [])));
  ordered = λ e. absurd (append_one-ne-nil w.lost b.pid e);
}

-- A change of the answers alone keeps the accounts.
same_accounts :
    (b : Backend) (w u : System)
    → u.spawned ≡ w.spawned
    → u.reaped ≡ w.reaped
    → u.lost ≡ w.lost
    → AccountsFor b w
    → AccountsFor b u
same_accounts b w u s r l a = record {
  counted = rw (s, r, l) a.counted;
  ordered = rw (s, r, l) a.ordered;
}

on_poll-AccountsFor :
    (answer : Poll) (b : Backend) (w : System)
    → (b.pid == 0) ≡ false
    → AccountsFor b w
    → AccountsFor (on_poll answer b w).1 (on_poll answer b w).2
on_poll-AccountsFor still_running b w h a = a
on_poll-AccountsFor ended b w h a = reap-AccountsFor b w h a
on_poll-AccountsFor wait_failed b w h a = lose-AccountsFor b w h a

running-AccountsFor :
    (b : Backend) (w : System) → AccountsFor b w → AccountsFor (running b w).1 (running b w).2
unfolding running
running-AccountsFor b w a = elim (Bool-cases (b.pid == 0)) [
  | inl e ↦ rw e a
  | inr e ↦ rw e (
      on_poll-AccountsFor (next_poll w.polls).0 b (record w { polls = (next_poll w.polls).1 }) e
        (same_accounts b w _ refl refl refl a))
]

on_poll_idle :
    (answer : Poll) (b : Backend) (w : System)
    → (on_poll answer b w).0 ≡ false
    → (on_poll answer b w).1.pid ≡ 0
on_poll_idle still_running b w h = absurd (cc h)
on_poll_idle ended b w h = refl
on_poll_idle wait_failed b w h = refl

-- Without a running child there is none at all.
running_idle : (b : Backend) (w : System) → (running b w).0 ≡ false → (running b w).1.pid ≡ 0
unfolding running
running_idle b w h = elim (Bool-cases (b.pid == 0)) [
  | inl e ↦ rw e (ground (arith, e))
  | inr e ↦ rw e (
      on_poll_idle (next_poll w.polls).0 b (record w { polls = (next_poll w.polls).1 }) (rw e at h))
]

spawn-AccountsFor :
    (b : Backend) (w : System)
    → b.pid ≡ 0
    → AccountsFor b w
    → AccountsFor (spawn b w).1 (spawn b w).2
unfolding spawn
spawn-AccountsFor b w h a = elim (Bool-cases ((next_fork w.forks).0 == 0)) [
  | inl e ↦ rw e (same_accounts b w _ refl refl refl a)
  | inr e ↦ rw e (record {
    counted = λ k. rw (current_child (next_fork w.forks).0 e) (
        omega (
          arith,
          count-append k w.spawned ((next_fork w.forks).0 ∷ []),
          none_at_hand k,
          a.counted k,
        ));
    ordered = λ q. rw (current_child (next_fork w.forks).0 e) (
        ap (λ l. l ++ ((next_fork w.forks).0 ∷ []))
          (a.ordered q ∙ rw (current_none b.pid h) (append-nil w.reaped)));
  })
]
  where
    none_at_hand : (k : ℕ) → count k (current b.pid) ≡ 0
    none_at_hand k = rw (current_none b.pid h) refl

start-AccountsFor :
    (b : Backend) (w : System) → AccountsFor b w → AccountsFor (start b w).1 (start b w).2
unfolding start
start-AccountsFor b w a = from (running b w) (running-AccountsFor b w a) (running_idle b w)
  where
    from :
        (r : Bool × Backend × System)
        → AccountsFor r.1 r.2
        → (r.0 ≡ false → r.1.pid ≡ 0)
        → AccountsFor (unless_running r).1 (unless_running r).2
    from (true, b, w) a idle = a
    from (false, b, w) a idle = elim (Bool-cases (is_empty b.binary)) [
      | inl e ↦ rw e a
      | inr e ↦ rw e (spawn-AccountsFor b w (idle refl) a)
    ]

wait_loop-AccountsFor :
    (n : ℕ) (b : Backend) (w : System)
    → AccountsFor b w
    → AccountsFor (wait_loop n b w).0 (wait_loop n b w).1
unfolding wait_loop
wait_loop-AccountsFor zero b w a = a
wait_loop-AccountsFor (suc n) b w a =
    let now = running-AccountsFor b w a in
    let later = wait_loop-AccountsFor n (running b w).1 (running b w).2 now in
    elim (Bool-cases (running b w).0) [ inl e ↦ rw e later | inr e ↦ rw e now ]

-- There is no child, and all that were started were waited for or let go of.
pub record Settled (b : Backend) (w : System) : Type 0 where
  pub no_child : b.pid ≡ 0
  pub counted : (k : ℕ) → count k w.spawned ≡ count k w.reaped + count k w.lost
  pub ordered : w.lost ≡ [] → w.spawned ≡ w.reaped

settled : (b : Backend) (w : System) → b.pid ≡ 0 → AccountsFor b w → Settled b w
settled b w h a = record {
  no_child = h;
  counted = λ k.
      let none : count k (current b.pid) ≡ 0 = rw (current_none b.pid h) refl in
      omega (arith, none, a.counted k);
  ordered = λ e. a.ordered e ∙ rw (current_none b.pid h) (append-nil w.reaped);
}

force-Settled :
    (b : Backend) (w : System) → AccountsFor b w → Settled (force (b, w)).0 (force (b, w)).1
unfolding force
force-Settled b w a = elim (Bool-cases (b.pid == 0)) [
  | inl e ↦ rw e (settled b w (ground (arith, e)) a)
  | inr e ↦ elim (Bool-cases (next_wait w.waits).0) [
    | inl q ↦
        rw (e, q) (settled _ _ refl (reap-AccountsFor b _ e (same_accounts b w _ refl refl refl a)))
    | inr q ↦
        rw (e, q) (settled _ _ refl (lose-AccountsFor b _ e (same_accounts b w _ refl refl refl a)))
  ]
]

-- After `stop` there is no child, and every child that was ever started has been waited for once, or
-- was let go of because `waitpid` failed, if the children were accounted for before; where no
-- `waitpid` has failed, all were waited for, in order.
pub stop-Settled : (b : Backend) (w : System) → AccountsFor b w → Settled (stop b w).0 (stop b w).1
unfolding stop
stop-Settled b w a = from (running b w) (running-AccountsFor b w a) (running_idle b w)
  where
    from :
        (r : Bool × Backend × System)
        → AccountsFor r.1 r.2
        → (r.0 ≡ false → r.1.pid ≡ 0)
        → Settled (if_running r).0 (if_running r).1
    from (true, b, w) a idle =
        let asked = record w { terminated = w.terminated ++ (b.pid ∷ []) } in
        force-Settled (wait_loop 50 b asked).0 (wait_loop 50 b asked).1
          (wait_loop-AccountsFor 50 b asked (same_accounts b w _ refl refl refl a))
    from (false, b, w) a idle = settled b w (idle refl) a

Settled-AccountsFor : (b : Backend) (w : System) → Settled b w → AccountsFor b w
Settled-AccountsFor b w s = record {
  counted = λ k.
      let none : count k (current b.pid) ≡ 0 = rw (current_none b.pid s.no_child) refl in
      omega (arith, none, s.counted k);
  ordered = λ e. s.ordered e ∙ rw (current_none b.pid s.no_child) (sym (append-nil w.reaped));
}

-- The operations of the backend, as its owner calls them; `poll` is `host_active`.
pub data Operation : Type 0 where
  do_start do_stop poll : Operation

abbrev pub state_after : Operation → Backend → System → Backend × System
state_after do_start b w = let (_, b', w') = start b w in (b', w')
state_after do_stop b w = stop b w
state_after poll b w = let (_, b', w') = running b w in (b', w')

-- The states that a backend without a child reaches in a system where none was started.
pub data Reachable : Backend → System → Type 0 where
  initial :
      {b : Backend} {w : System}
      → b.pid ≡ 0
      → w.spawned ≡ []
      → w.reaped ≡ []
      → w.lost ≡ []
      → Reachable b w
  after :
      {b : Backend} {w : System} (op : Operation)
      → Reachable b w
      → Reachable (state_after op b w).0 (state_after op b w).1

-- Whatever is called in whatever order, and whatever the system answers, every child that was
-- started has been waited for once, was let go of because `waitpid` failed, or is the one at hand;
-- where no `waitpid` has failed, this is so in the order of the starts.
pub Reachable-AccountsFor : {b : Backend} {w : System} → Reachable b w → AccountsFor b w
Reachable-AccountsFor (initial {b} {w} h s r l) = record {
  counted = λ k. rw (s, r, l, current_none b.pid h) refl;
  ordered = λ e. rw (s, r, current_none b.pid h) refl;
}
Reachable-AccountsFor (after {b} {w} do_start r) = start-AccountsFor b w (Reachable-AccountsFor r)
Reachable-AccountsFor (after {b} {w} do_stop r) =
    Settled-AccountsFor (stop b w).0 (stop b w).1 (stop-Settled b w (Reachable-AccountsFor r))
Reachable-AccountsFor (after {b} {w} poll r) = running-AccountsFor b w (Reachable-AccountsFor r)
