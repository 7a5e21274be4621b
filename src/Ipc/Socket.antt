-- ===== src/Ipc/Socket.antt =====
-- The loops of `read_exact` and `write_all` in src/ipc/transport_posix.cpp over the answers of the
-- system, and that they do what Ipc/Transport says.
use arcade_launcher_stream_e.Ipc.Transport.{Transport, read_exact, write_all}
use arcade_launcher_stream_e.Base.{
  ℕ, zero, suc, ◌+◌, ◌-◌, ◌≤◌, Bytes, Bool, true, false, List, [], ◌∷◌, ◌++◌, ltb, ◌==◌,
  if◌then◌else◌, Option, none, some, ◌≡◌, refl, sym, ap, ◌∙◌, inl, inr, arith, length, take, drop,
  take_add, drop_add, Bool-cases, is_empty, append-nil, append_assoc, length-drop, take-append-drop,
}

-- What a call of `recv` or `send` meets: a signal, which is EINTR, another error, or a moment at which
-- this many bytes and one more could be moved.
pub data Call : Type 0 where
  interrupted : Call
  broken : Call
  ready : ℕ → Call

abbrev pub least : ℕ → ℕ → ℕ
least m n = if ltb m n then m else n

-- The bytes that a call moves, of those that are asked for and those that there are
abbrev pub moved : ℕ → ℕ → ℕ → ℕ
moved k asked there = least (suc k) (least asked there)

-- The loop of `read_exact`: `recv` gives 0 when the peer has closed and all was read. Where the calls
-- end, it waits.
unfoldable pub read_loop : List Call → ℕ → Bytes → Transport → Option (Option Bytes × Transport)
read_loop calls zero got t = some (some got, t)
read_loop [] (suc n) got t = none
read_loop (interrupted ∷ calls) (suc n) got t = read_loop calls (suc n) got t
read_loop (broken ∷ calls) (suc n) got t = some (none, t)
read_loop (ready k ∷ calls) (suc n) got t =
    let p = moved k (suc n) (length t.incoming) in
    let rest =
      read_loop calls (suc n - p) (got ++ take p t.incoming)
        (record t { incoming = drop p t.incoming }) in
    if is_empty t.incoming then some (none, t) else rest

-- The loop of `write_all`: `send` fails when the peer takes no more.
unfoldable pub write_loop : List Call → Bytes → Transport → Option (Bool × Transport)
write_loop calls [] t = some (true, t)
write_loop [] (c ∷ s) t = none
write_loop (interrupted ∷ calls) (c ∷ s) t = write_loop calls (c ∷ s) t
write_loop (broken ∷ calls) (c ∷ s) t = some (false, t)
write_loop (ready k ∷ calls) (c ∷ s) t =
    let p = moved k (length (c ∷ s)) t.room in
    let rest =
      write_loop calls (drop p (c ∷ s))
        (record t { outgoing = t.outgoing ++ take p (c ∷ s); room = t.room - p }) in
    if t.room == 0 then some (false, t) else rest

-- The calls that can move something, in front of the first error
unfoldable pub ready_calls : List Call → ℕ
ready_calls [] = 0
ready_calls (interrupted ∷ calls) = ready_calls calls
ready_calls (broken ∷ calls) = 0
ready_calls (ready k ∷ calls) = suc (ready_calls calls)

-- What `read_exact` gives behind the bytes that were read already
reads : ℕ → Bytes → Transport → Option Bytes × Transport
reads n got t =
    if ltb (length t.incoming) n
    then (none, record t { incoming = [] })
    else (some (got ++ take n t.incoming), record t { incoming = drop n t.incoming })

reads_past :
    (p q : ℕ) (got : Bytes) (t : Transport)
    → p ≤ length t.incoming
    → reads q (got ++ take p t.incoming) (record t { incoming = drop p t.incoming })
      ≡ reads (p + q) got t
unfolding reads
reads_past p q got t h =
    rw
      (
        drop_add p q t.incoming,
        take_add p q t.incoming,
        append_assoc got (take p t.incoming) (take q (drop p t.incoming)),
        length-drop p t.incoming,
        same_test,
      )
      refl
  where
    same_test : ltb (length t.incoming - p) q ≡ ltb (length t.incoming) (p + q)
    same_test = ground (arith, h)

moved-le : (k asked there : ℕ) → (moved k asked there ≤ asked) × (moved k asked there ≤ there)
moved-le k asked there = (ground arith, ground arith)

-- A call that finds something moves something.
moved_some : (k n there : ℕ) → (there == 0) ≡ false → 1 ≤ moved k (suc n) there
moved_some k n there h = ground (arith, h)

is_empty-nil : (s : Bytes) → is_empty s ≡ true → s ≡ []
unfolding is_empty
is_empty-nil [] h = refl
is_empty-nil (c ∷ s) h = absurd (cc h)

length-not_empty : (s : Bytes) → is_empty s ≡ false → (length s == 0) ≡ false
unfolding is_empty
length-not_empty [] h = absurd (cc h)
length-not_empty (c ∷ s) h = ground arith

-- The peer has closed, and nothing is left.
reads_nothing :
    (n : ℕ) (got : Bytes) (t : Transport)
    → is_empty t.incoming ≡ true
    → reads (suc n) got t ≡ (none, t)
unfolding reads
reads_nothing n got t h =
    let e = is_empty-nil t.incoming h in
    let short : ltb (length t.incoming) (suc n) ≡ true = rw e (ground arith) in
    rw short (ap (λ l. (none, record t { incoming = l })) (sym e))

read_loop-reads :
    (calls : List Call) (n : ℕ) (got : Bytes) (t : Transport)
    → n ≤ ready_calls calls
    → read_loop calls n got t ≡ some (reads n got t)
unfolding read_loop ready_calls reads
read_loop-reads calls zero got t h =
    let e : ltb (length t.incoming) 0 ≡ false = ground arith in rw (e, append-nil got) refl
read_loop-reads [] (suc n) got t h = absurd (omega (arith, h))
read_loop-reads (interrupted ∷ calls) (suc n) got t h = read_loop-reads calls (suc n) got t h
read_loop-reads (broken ∷ calls) (suc n) got t h = absurd (omega (arith, h))
read_loop-reads (ready k ∷ calls) (suc n) got t h = elim (Bool-cases (is_empty t.incoming)) [
  | inl e ↦ rw e (ap (λ r. some r) (sym (reads_nothing n got t e)))
  | inr e ↦
      let p = moved k (suc n) (length t.incoming) in
      let (asked, there) = moved-le k (suc n) (length t.incoming) in
      let some_moved = moved_some k n (length t.incoming) (length-not_empty t.incoming e) in
      let whole : p + (suc n - p) ≡ suc n = omega (arith, asked) in
      rw e (
        read_loop-reads calls (suc n - p) (got ++ take p t.incoming)
          (record t { incoming = drop p t.incoming }) (omega (arith, some_moved, h))
        ∙ ap (λ r. some r) (reads_past p (suc n - p) got t there ∙ ap (λ m. reads m got t) whole))
]

writes_past :
    (p : ℕ) (s : Bytes) (t : Transport)
    → p ≤ length s
    → p ≤ t.room
    → write_all (drop p s) (record t { outgoing = t.outgoing ++ take p s; room = t.room - p })
      ≡ write_all s t
unfolding write_all
writes_past p s t whole h = elim (Bool-cases (ltb t.room (length s))) [
  | inl e ↦
      rw (e, same_test ∙ e)
        (ap (λ o. (false, record t { outgoing = o; room = 0 }))
          (append_assoc t.outgoing (take p s) (take (t.room - p) (drop p s))
            ∙ ap (λ l. t.outgoing ++ l)
                (sym (take_add p (t.room - p) s) ∙ ap (λ n. take n s) (omega (arith, h)))))
  | inr e ↦
      rw (e, same_test ∙ e, append_assoc t.outgoing (take p s) (drop p s), take-append-drop p s)
        (ap (λ n. (true, record t { outgoing = t.outgoing ++ s; room = n }))
          (omega (arith, length-drop p s, whole, h)))
]
  where
    same_test : ltb (t.room - p) (length (drop p s)) ≡ ltb t.room (length s)
    same_test = rw (length-drop p s) (ground (arith, whole, h))

-- The peer takes nothing.
writes_nothing :
    (c : ℕ) (s : Bytes) (t : Transport) → (t.room == 0) ≡ true → write_all (c ∷ s) t ≡ (false, t)
unfolding write_all
writes_nothing c s t h =
    let e : t.room ≡ 0 = ground (arith, h) in
    let short : ltb t.room (length (c ∷ s)) ≡ true = rw e (ground arith) in
    rw short (
      ap (λ n. (false, record t { outgoing = t.outgoing ++ take n (c ∷ s); room = 0 })) e
      ∙ (ap (λ o. (false, record t { outgoing = o; room = 0 })) (append-nil t.outgoing)
          ∙ ap (λ n. (false, record t { room = n })) (sym e)))

write_loop-write_all :
    (calls : List Call) (s : Bytes) (t : Transport)
    → length s ≤ ready_calls calls
    → write_loop calls s t ≡ some (write_all s t)
unfolding write_loop ready_calls write_all
write_loop-write_all calls [] t h =
    let e : ltb t.room 0 ≡ false = ground arith in
    rw (e, append-nil t.outgoing) (ap (λ n. some (true, record t { room = n })) (omega arith))
write_loop-write_all [] (c ∷ s) t h = absurd (omega (arith, h))
write_loop-write_all (interrupted ∷ calls) (c ∷ s) t h = write_loop-write_all calls (c ∷ s) t h
write_loop-write_all (broken ∷ calls) (c ∷ s) t h = absurd (omega (arith, h))
write_loop-write_all (ready k ∷ calls) (c ∷ s) t h = elim (Bool-cases (t.room == 0)) [
  | inl e ↦ rw e (ap (λ r. some r) (sym (writes_nothing c s t e)))
  | inr e ↦
      let p = moved k (length (c ∷ s)) t.room in
      let (asked, there) = moved-le k (length (c ∷ s)) t.room in
      let some_moved = moved_some k (length s) t.room e in
      rw e (
        write_loop-write_all calls (drop p (c ∷ s))
          (record t { outgoing = t.outgoing ++ take p (c ∷ s); room = t.room - p })
          (omega (arith, some_moved, h, length-drop p (c ∷ s)))
        ∙ ap (λ r. some r) (writes_past p (c ∷ s) t asked there))
]

-- With a call that is ready for each byte that is asked for, in front of any error, whatever the signals in between and
-- however many bytes each call moves, the loops of the socket give what the transport promises: all
-- the bytes or a refusal, the same bytes out, and the same rest.
pub socket-Transport :
    (calls : List Call) (n : ℕ) (s : Bytes) (t : Transport)
    → n ≤ ready_calls calls
    → length s ≤ ready_calls calls
    → (read_loop calls n [] t ≡ some (read_exact n t))
      × (write_loop calls s t ≡ some (write_all s t))
unfolding read_exact reads
socket-Transport calls n s t h k =
    (read_loop-reads calls n [] t h, write_loop-write_all calls s t k)
