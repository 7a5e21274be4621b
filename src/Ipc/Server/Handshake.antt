-- ===== src/Ipc/Server/Handshake.antt =====
-- When `handshake` accepts the peer, and that two engines of this version accept each other.
use arcade_launcher_stream_e.Ipc.Frame.RoundTrip.{wire, write_frame-wire, read_frame-wire}
use arcade_launcher_stream_e.Ipc.Frame.{max_frame}
use arcade_launcher_stream_e.Base.{
  ℕ, ◌-◌, ◌≤◌, Bytes, codes, true, [], ◌++◌, some, ◌≡◌, ◌↔◌, refl, arith, length, bytes_eq,
  bytes_eq_iff, ℤ, pos, negsuc, bytes_lt,
}
use arcade_launcher_stream_e.Json.Numbers.{is_portable_num}
use arcade_launcher_stream_e.Json.Maps.{keys_sorted}
use arcade_launcher_stream_e.Json.{
  Value, set, set_field, is_object, find_field, str_or, num_or, find, get_str, get_num,
}
use arcade_launcher_stream_e.Json.RoundTrip.{parse-dump, is_portable}
use arcade_launcher_stream_e.Json.Dump.{dump}
use arcade_launcher_stream_e.Json.Parser.{parse}
use arcade_launcher_stream_e.Json.Floats.{Floats, Ieee}
use arcade_launcher_stream_e.Ipc.Server.{
  success, hello, check_peer, handshake, get_str, equals, get_num, protocol_version, find,
  Transport,
}

-- A hello of this protocol version.
pub record IsHello ⦃fl : Floats⦄ (peer : Value) : Type 0 where
  pub object : is_object peer ≡ true
  pub kind : get_str peer (codes "kind") [] ≡ codes "hello"
  pub version :
      fl.to_int (get_num peer (codes "protocolVersion") (fl.of_ℤ (negsuc 0))) ≡ pos protocol_version

equals_iff : (z : ℤ) (k : ℕ) → (equals z k ≡ true) ↔ (z ≡ pos k)
equals_iff (pos n) k = ground arith
equals_iff (negsuc n) k = ground arith

-- A frame that parses is accepted exactly when it is a hello of this protocol version.
pub check_peer-success_iff :
    ⦃fl : Floats⦄ (peer : Value) → (check_peer (some peer) ≡ success) ↔ IsHello peer
unfolding check_peer
check_peer-success_iff ⦃fl⦄ peer =
    let kind_iff = bytes_eq_iff (get_str peer (codes "kind") []) (codes "hello") in
    let version_iff =
      equals_iff (fl.to_int (get_num peer (codes "protocolVersion") (fl.of_ℤ (negsuc 0))))
        protocol_version in
    (λ h. ground (arith, kind_iff, version_iff), λ h. ground (arith, kind_iff, version_iff))

hello-is_portable :
    ⦃fl : Floats⦄ (laws : Ieee fl) (version : Bytes) → is_portable (hello version) ≡ true
unfolding hello is_portable set set_field bytes_eq bytes_lt keys_sorted is_portable_num
hello-is_portable laws version =
    ground (arith, laws.of_ℤ_finite (pos 1) (omega arith), laws.of_ℤ_zero (pos 1) (omega arith))

hello-IsHello : ⦃fl : Floats⦄ (laws : Ieee fl) (version : Bytes) → IsHello (hello version)
unfolding hello set set_field find find_field bytes_eq bytes_lt get_str get_num is_object str_or
    num_or
hello-IsHello laws version = record {
  object = refl;
  kind = refl;
  version = laws.to_int-of_ℤ (pos 1) (omega arith);
}

-- The hello that this engine sends is one that `handshake` accepts, whatever the version string,
-- for doubles that obey the laws.
pub check_peer-hello :
    ⦃fl : Floats⦄ (laws : Ieee fl) (version : Bytes)
    → check_peer (parse (dump (hello version))) ≡ success
check_peer-hello laws version =
    rw (parse-dump laws (hello version) (hello-is_portable laws version))
      ((check_peer-success_iff (hello version)).1 (hello-IsHello laws version))

-- When its own hello fits in a frame and in what the peer takes, and a frame of JSON text has come
-- in, `handshake` succeeds exactly when that frame is a hello of this protocol version.
pub handshake-success_iff :
    ⦃fl : Floats⦄ (version raw rest : Bytes) (peer : Value) (t : Transport)
    → length (dump (hello version)) ≤ max_frame
    → length (wire (dump (hello version))) ≤ t.room
    → t.incoming ≡ wire raw ++ rest
    → length raw ≤ max_frame
    → parse raw ≡ some peer
    → ((handshake version t).0 ≡ success) ↔ IsHello peer
unfolding handshake
handshake-success_iff version raw rest peer t h k e m p =
    let write = write_frame-wire (dump (hello version)) t h k in
    let read =
      read_frame-wire raw rest
        (record t {
          outgoing = t.outgoing ++ wire (dump (hello version));
          room = t.room - length (wire (dump (hello version)));
        })
        m e in
    rw (write, read, p) (check_peer-success_iff peer)
