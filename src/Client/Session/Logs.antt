-- ===== src/Client/Session/Logs.antt =====
-- What holds of the events and the times of a session at a place of the worker.

use arcade_launcher_stream_e.Client.Session.Invariant.{renders}
use arcade_launcher_stream_e.Client.Session.{
  StateEvent, elapsed, Worker, Session, opening, streaming, connecting, send, StartInfo,
}
use arcade_launcher_stream_e.Base.{
  ℕ, codes, Bool, true, false, not, ◌&&◌, ◌||◌, List, [], ◌∷◌, ◌++◌, leb, ◌==◌, if◌then◌else◌,
  Option, none, some, ◌≡◌, ◌⊎◌, refl, inl, inr, arith, bytes_eq,
}

abbrev pub is_window : StateEvent → Bool
is_window e = bytes_eq e.phase (codes "window")

unfoldable pub no_window_in : List StateEvent → Bool
no_window_in [] = true
no_window_in (e ∷ es) = not (is_window e) && no_window_in es

-- Behind the first event none is about a window, and if `shown` the first one is.
unfoldable pub announced : Bool → List StateEvent → Bool
unfolding no_window_in
announced shown [] = not shown
announced shown (e ∷ es) = (not shown || is_window e) && no_window_in es

no_window_in-append :
    (es : List StateEvent) (e : StateEvent)
    → is_window e ≡ false
    → no_window_in es ≡ true
    → no_window_in (es ++ (e ∷ [])) ≡ true
unfolding no_window_in
no_window_in-append [] e h k = rw h
no_window_in-append (d ∷ es) e h k = ground (arith, no_window_in-append es e h)

announced-append :
    (shown : Bool) (es : List StateEvent) (e : StateEvent)
    → is_window e ≡ false
    → announced shown es ≡ true
    → announced shown (es ++ (e ∷ [])) ≡ true
unfolding announced
announced-append shown [] e h k = ground arith
announced-append shown (d ∷ es) e h k = ground (arith, no_window_in-append es e h)

announced_weaken :
    (shown : Bool) (es : List StateEvent) → announced shown es ≡ true → announced false es ≡ true
unfolding announced
announced_weaken shown [] h = refl
announced_weaken shown (d ∷ es) h = ground arith

-- Two times that follow each other are at least a second apart, and so is the first one from
-- `last`, if it is given.
unfoldable pub spaced : Option ℕ → List ℕ → Bool
spaced last [] = true
spaced none (a ∷ times) = spaced (some a) times
spaced (some last) (a ∷ times) = leb 1000 (elapsed a last) && spaced (some a) times

abbrev pub last_of : Option ℕ → List ℕ → Option ℕ
last_of last [] = last
last_of last (a ∷ times) = last_of (some a) times

pub spaced-append :
    (last : Option ℕ) (times : List ℕ) (now : ℕ)
    → spaced last times ≡ true
    → spaced (last_of last times) (now ∷ []) ≡ true
    → spaced last (times ++ (now ∷ [])) ≡ true
unfolding spaced
spaced-append last [] now h k = k
spaced-append none (a ∷ times) now h k = spaced-append (some a) times now h k
spaced-append (some b) (a ∷ times) now h k = ground (arith, spaced-append (some a) times now)

pub last_of-append :
    (last : Option ℕ) (times : List ℕ) (now : ℕ) → last_of last (times ++ (now ∷ [])) ≡ some now
last_of-append last [] now = refl
last_of-append last (a ∷ times) now = last_of-append (some a) times now

-- At the place of the worker where no event, and no time, has gone out yet.
abbrev pub is_opening : Worker → Bool
is_opening (opening _) = true
is_opening _ = false

-- The time that the loop remembers is the last one that went out, if any did.
abbrev pub remembers : Worker → Option ℕ → Bool
remembers (streaming _ now) (some last) = last == now
remembers (opening _) (some last) = false
remembers (connecting _ _) (some last) = false
remembers _ _ = true

pub record Ordered (worker : Worker) (events : List StateEvent) (stats : List ℕ) : Type 0 where
  pub first : announced (renders worker) events ≡ true
  pub fresh : is_opening worker ≡ true → events ≡ []
  pub apart : spaced none stats ≡ true
  pub remembered : remembers worker (last_of none stats) ≡ true

abbrev pub IsOrdered : Session → Type 0
IsOrdered s = Ordered s.worker s.events s.stats

pub opened : (info : StartInfo) → Ordered (opening info) [] []
unfolding announced spaced
opened info = record { first = refl; fresh = λ q. refl; apart = refl; remembered = refl }

-- A worker without a renderer that is not opening, and remembers nothing
pub idle-Ordered :
    (w v : Worker) (es : List StateEvent) (ts : List ℕ)
    → renders v ≡ false
    → is_opening v ≡ false
    → remembers v (last_of none ts) ≡ true
    → Ordered w es ts
    → Ordered v es ts
idle-Ordered w v es ts r f m o = record {
  first = rw r (announced_weaken (renders w) es o.first);
  fresh = λ q. cc;
  apart = o.apart;
  remembered = m;
}

-- A worker that renders as before
pub next-Ordered :
    (w v : Worker) (es : List StateEvent) (ts : List ℕ)
    → renders v ≡ renders w
    → is_opening v ≡ false
    → remembers v (last_of none ts) ≡ true
    → Ordered w es ts
    → Ordered v es ts
next-Ordered w v es ts r f m o = record {
  first = rw r o.first;
  fresh = λ q. cc;
  apart = o.apart;
  remembered = m;
}

-- One more event
event-Ordered :
    (w : Worker) (es : List StateEvent) (ts : List ℕ) (e : StateEvent)
    → is_window e ≡ false
    → is_opening w ≡ false
    → Ordered w es ts
    → Ordered w (es ++ (e ∷ [])) ts
event-Ordered w es ts e h k o = record {
  first = announced-append (renders w) es e h o.first;
  fresh = λ q. cc;
  apart = o.apart;
  remembered = o.remembered;
}

pub send-Ordered :
    (s : Session) (e : StateEvent)
    → is_window e ≡ false
    → is_opening s.worker ≡ false
    → IsOrdered s
    → IsOrdered (send e s)
unfolding send
send-Ordered s e h k o = from s.sink
  where
    from : (b : Bool) → IsOrdered (if b then record s { events = s.events ++ (e ∷ []) } else s)
    from true = event-Ordered s.worker s.events s.stats e h k o
    from false = o

-- Before the loop no statistics have gone out.
pub nothing_sent :
    (info : StartInfo) (have_window : Bool) (w : Worker) (sent : Option ℕ)
    → (w ≡ opening info) ⊎ (w ≡ connecting info have_window)
    → remembers w sent ≡ true
    → sent ≡ none
nothing_sent info have_window w none h k = refl
nothing_sent info have_window w (some last) (inl h) k = absurd (cc (rw h at k))
nothing_sent info have_window w (some last) (inr h) k = absurd (cc (rw h at k))

-- The next statistics keep their distance from what the loop remembers.
pub next_apart :
    (have_window : Bool) (last now : ℕ) (sent : Option ℕ)
    → remembers (streaming have_window last) sent ≡ true
    → leb 1000 (elapsed now last) ≡ true
    → spaced sent (now ∷ []) ≡ true
unfolding spaced
next_apart have_window last now none h k = refl
next_apart have_window last now (some l) h k = ground (arith, h, k)
