-- ===== src/Ipc/Frame/RoundTrip.antt =====
-- Frames come back as they were sent.
use arcade_launcher_stream_e.Base.{
  ℕ, suc, ◌+◌, ◌-◌, ◌*◌, ◌/◌, ◌%◌, ◌<◌, ◌≤◌, Bytes, false, [], ◌∷◌, ◌++◌, ◌==◌, some, ◌≡◌, ◌↔◌,
  refl, sym, ◌∙◌, arith, length, length-append, append_assoc, append-nil, le→not_ltb, drop,
  length-take, AreBytes, take-length_append, drop-length_append, take-append-drop,
}
use arcade_launcher_stream_e.Ipc.Transport.{Transport, read_exact, write_all}
use arcade_launcher_stream_e.Ipc.Frame.{
  max_frame, header, header_value, sent, write_frame, frame, read_frame, read_sized, closed,
}

-- The bytes of a frame on the wire.
abbrev pub wire : Bytes → Bytes
wire payload = header (length payload) ++ payload

header_value-header : (n : ℕ) (rest : Bytes) → n ≤ max_frame → header_value (header n ++ rest) ≡ n
unfolding header_value header
header_value-header n rest h = omega arith

read_exact-append :
    (s rest : Bytes) (t : Transport)
    → t.incoming ≡ s ++ rest
    → read_exact (length s) t ≡ (some s, record t { incoming = rest })
unfolding read_exact
read_exact-append s rest t e = rw (
  e,
  le→not_ltb (length (s ++ rest)) (length s) (omega (arith, length-append {0} s rest)),
  take-length_append s rest,
  drop-length_append s rest,
)

read_sized-append :
    (payload rest : Bytes) (t : Transport)
    → length payload ≤ max_frame
    → t.incoming ≡ payload ++ rest
    → read_sized (length payload) t ≡ (frame payload, record t { incoming = rest })
unfolding read_sized
read_sized-append [] rest t h e = rw (← e)
read_sized-append (c ∷ payload) rest t h e = rw (
  read_exact-append (c ∷ payload) rest t e,
  le→not_ltb max_frame (length (c ∷ payload)) h,
  not_zero (length payload),
)
  where
    not_zero : (n : ℕ) → (suc n == 0) ≡ false
    not_zero n = ground arith

-- A frame on the wire is read as its payload, and what follows it stays.
pub read_frame-wire :
    (payload rest : Bytes) (t : Transport)
    → length payload ≤ max_frame
    → t.incoming ≡ wire payload ++ rest
    → read_frame t ≡ (frame payload, record t { incoming = rest })
unfolding read_frame
read_frame-wire payload rest t h e =
    let front : read_exact 4 t
        ≡ (some (header (length payload)), record t { incoming = payload ++ rest }) =
      unfold header in
      read_exact-append (header (length payload)) (payload ++ rest) t
        (e ∙ append_assoc (header (length payload)) payload rest) in
    let size = rw append-nil at (header_value-header (length payload) [] h) in
    rw (front, size)
      (read_sized-append payload rest (record t { incoming = payload ++ rest }) h refl)

pub write_frame-sent :
    (payload : Bytes) (t t' : Transport)
    → write_frame payload t ≡ (sent, t')
    → (length payload ≤ max_frame) × (t'.outgoing ≡ t.outgoing ++ wire payload)
unfolding write_frame write_all
write_frame-sent [] t t' h = ground (arith, append-nil (header 0))
write_frame-sent (c ∷ payload) t t' h =
    ground (arith, append_assoc t.outgoing (header (length (c ∷ payload))) (c ∷ payload))

-- A frame that was sent is read back by the peer, and what follows it stays.
pub read_frame-write_frame :
    (payload rest : Bytes) (t t' u : Transport)
    → write_frame payload t ≡ (sent, t')
    → u.incoming ≡ drop (length t.outgoing) t'.outgoing ++ rest
    → read_frame u ≡ (frame payload, record u { incoming = rest })
read_frame-write_frame payload rest t t' u w e =
    let (small, out) = write_frame-sent payload t t' w in
    read_frame-wire payload rest u small
      (e ∙ rw (out, drop-length_append t.outgoing (wire payload)))

read_sized_sound :
    (n : ℕ) (t t' : Transport) (payload : Bytes)
    → read_sized n t ≡ (frame payload, t')
    → (length payload ≡ n) × (n ≤ max_frame) × (t.incoming ≡ payload ++ t'.incoming)
unfolding read_sized read_exact
read_sized_sound n t t' payload h =
    ground (arith, length-take n t.incoming, take-append-drop n t.incoming)

header-header_value :
    (a b c d : ℕ)
    → a < 256
    → b < 256
    → c < 256
    → d < 256
    → header (a + b * 256 + c * 65536 + d * 16777216) ≡ a ∷ b ∷ c ∷ d ∷ []
unfolding header
header-header_value a b c d p q r s =
    let n : ℕ = a + b * 256 + c * 65536 + d * 16777216 in
    let first : n % 256 ≡ a = omega arith in
    let second : n / 256 % 256 ≡ b = omega arith in
    let third : n / 65536 % 256 ≡ c = omega arith in
    let fourth : n / 16777216 % 256 ≡ d = omega arith in rw (first, second, third, fourth)

read_frame_step :
    (x y z w : ℕ) (s : Bytes) (t : Transport)
    → t.incoming ≡ x ∷ y ∷ z ∷ w ∷ s
    → read_frame t ≡ read_sized (x + y * 256 + z * 65536 + w * 16777216) (record t { incoming = s })
unfolding read_frame read_exact header_value
read_frame_step x y z w s t e = rw (e, le→not_ltb (length (x ∷ y ∷ z ∷ w ∷ s)) 4 (omega arith))

framed :
    (s : Bytes) (t t' : Transport) (payload : Bytes)
    → t.incoming ≡ s
    → AreBytes s
    → read_frame t ≡ (frame payload, t')
    → (length payload ≤ max_frame) × (s ≡ wire payload ++ t'.incoming)
unfolding read_frame read_exact header_value
framed [] t t' payload e b h = ground arith
framed (x ∷ []) t t' payload e b h = ground arith
framed (x ∷ y ∷ []) t t' payload e b h = ground arith
framed (x ∷ y ∷ z ∷ []) t t' payload e b h = ground arith
framed (x ∷ y ∷ z ∷ w ∷ s) t t' payload e b h =
    let (size, bound, splits) =
      read_sized_sound (x + y * 256 + z * 65536 + w * 16777216) (record t { incoming = s }) t'
        payload (sym (read_frame_step x y z w s t e) ∙ h) in
    (omega arith, rw (size, header-header_value x y z w b.0 b.1.0 b.1.1.0 b.1.1.1.0, splits))

-- Where `read_frame` delivers a frame from a stream of bytes, the stream starts with that frame on
-- the wire, within the cap of 8 MiB, and goes on with what is left.
pub read_frame_sound :
    (t t' : Transport) (payload : Bytes)
    → AreBytes t.incoming
    → read_frame t ≡ (frame payload, t')
    → (length payload ≤ max_frame) × (t.incoming ≡ wire payload ++ t'.incoming)
read_frame_sound t t' payload b h = framed t.incoming t t' payload refl b h

-- A frame is sent exactly when it is within the cap and the peer takes its header and its bytes.
pub write_frame-sent_iff :
    (payload : Bytes) (t : Transport)
    → ((write_frame payload t).0 ≡ sent)
      ↔ ((length payload ≤ max_frame) × (length payload + 4 ≤ t.room))
unfolding write_frame write_all header
write_frame-sent_iff [] t = ground arith
write_frame-sent_iff (c ∷ payload) t = ground arith

pub write_frame-wire :
    (payload : Bytes) (t : Transport)
    → length payload ≤ max_frame
    → length (wire payload) ≤ t.room
    → write_frame payload t ≡ (
      sent,
      record t { outgoing = t.outgoing ++ wire payload; room = t.room - length (wire payload) },
    )
unfolding write_frame write_all header
write_frame-wire [] t h k = ground arith
write_frame-wire (c ∷ payload) t h k =
    ground (arith, append_assoc t.outgoing (header (length (c ∷ payload))) (c ∷ payload))

pub read_frame_empty : (t : Transport) → t.incoming ≡ [] → read_frame t ≡ (closed, t)
unfolding read_frame read_exact
read_frame_empty t e = ground arith
