-- ===== src/Ipc/Frame/Effects.antt =====
-- What reading and writing a frame do to the input that is left.
use arcade_launcher_stream_e.Base.{
  ◌<◌, Bytes, [], ◌∷◌, ◌≡◌, arith, length, length-drop, length-drop-le, take, drop,
}
use arcade_launcher_stream_e.Ipc.Transport.{Transport, read_exact, write_all}
use arcade_launcher_stream_e.Ipc.Frame.{read_sized, write_frame, read_frame, frame, header_value}

pub read_frame-shorter :
    (t t' : Transport) (raw : Bytes)
    → read_frame t ≡ (frame raw, t')
    → length t'.incoming < length t.incoming
unfolding read_frame read_exact read_sized
read_frame-shorter t t' raw h = ground (
  arith,
  length-drop 4 t.incoming,
  length-drop-le (header_value (take 4 t.incoming)) (drop 4 t.incoming),
)

pub write_frame-incoming :
    (payload : Bytes) (t : Transport) → (write_frame payload t).1.incoming ≡ t.incoming
unfolding write_frame write_all
write_frame-incoming [] t = ground arith
write_frame-incoming (c ∷ payload) t = ground arith
