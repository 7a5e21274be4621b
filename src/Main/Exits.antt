-- ===== src/Main/Exits.antt =====
-- The exit codes of the two modes, src/host/host_main.cpp and src/client/stream_main.cpp.
use arcade_launcher_stream_e.Ipc.Server.Total.{run-ne-out_of_fuel}
use arcade_launcher_stream_e.Json.Dump.{dump}
use arcade_launcher_stream_e.Ipc.Frame.Effects.{read_frame-shorter, write_frame-incoming}
use arcade_launcher_stream_e.Main.{serve_from, run_code}
use arcade_launcher_stream_e.Ipc.Frame.{
  Read, Written, read_frame, frame, unsent, write_frame, sent, broken, closed,
}
use arcade_launcher_stream_e.Json.Floats.{Floats}
use arcade_launcher_stream_e.Ipc.Server.{
  handshake_read, handshake_written, handshake, Handlers, success, Finish, Outcome, out_of_fuel,
  failure, hello, error, run, clean,
}
use arcade_launcher_stream_e.Base.{
  ℕ, ◌<◌, ◌≤◌, Bytes, Bool, true, false, List, if◌then◌else◌, Option, none, some, ◌≡◌, ◌≢◌, ◌⊎◌,
  refl, ap, inl, inr, arith, length, is_empty,
}
use arcade_launcher_stream_e.Ipc.Transport.{Transport}
use arcade_launcher_stream_e.Main.{connected, host_main, ipc_token_from_args}

check_read :
    ⦃fl : Floats⦄ (r : Read × Transport) (t : Transport)
    → read_frame t ≡ r
    → (handshake_read r).0 ≡ success
    → length (handshake_read r).1.incoming < length t.incoming
unfolding handshake_read
check_read (frame raw, u) t e h = read_frame-shorter t u raw e
check_read (closed, u) t e h = absurd (cc h)
check_read (broken err, u) t e h = absurd (cc h)

check_written :
    ⦃fl : Floats⦄ (w : Written × Transport) (t : Transport)
    → w.1.incoming ≡ t.incoming
    → (handshake_written w).0 ≡ success
    → length (handshake_written w).1.incoming < length t.incoming
unfolding handshake_written
check_written (sent, u) t e h =
    omega (arith, check_read (read_frame u) u refl h, ap (λ l. length l) e)
check_written (unsent err, u) t e h = absurd (cc h)

-- A handshake that succeeds has read from its finite input.
pub handshake-shorter :
    ⦃fl : Floats⦄ (version : Bytes) (t : Transport)
    → (handshake version t).0 ≡ success
    → length (handshake version t).1.incoming < length t.incoming
unfolding handshake
handshake-shorter version t h =
    check_written (write_frame (dump (hello version)) t) t
      (write_frame-incoming (dump (hello version)) t) h

-- What the exit codes are
abbrev pub IsExit : Option ℕ → Type 0
IsExit none = ⊥
IsExit (some code) = (code ≡ 0) ⊎ (code ≡ 64) ⊎ (code ≡ 69) ⊎ (code ≡ 70)

module _ ⦃fl : Floats⦄ {S : Type 0} (hs : Handlers S) (version : Bytes) (fuel : ℕ) where
  run_code-IsExit : (f : Finish) → f ≢ out_of_fuel → IsExit (run_code f)
  run_code-IsExit clean h = inl refl
  run_code-IsExit (error err) h = inr (inr (inr refl))
  run_code-IsExit out_of_fuel h = absurd (h refl)

  serve_from-IsExit :
      (s : S) (r : Outcome × Transport)
      → (r.0 ≡ success → length r.1.incoming < fuel)
      → IsExit (serve_from hs version fuel s r)
  serve_from-IsExit s (failure err, t) h = inr (inr (inr refl))
  serve_from-IsExit s (success, t) h =
      run_code-IsExit (run hs fuel t s).0 (run-ne-out_of_fuel hs fuel t s (h refl))

  pub connected-IsExit :
      (s : S) (o : Option Transport)
      → ((t : Transport) → o ≡ some t → length t.incoming ≤ fuel)
      → IsExit (connected hs version fuel s o)
  connected-IsExit s none h = inr (inr (inl refl))
  connected-IsExit s (some t) h =
      serve_from-IsExit s (handshake version t)
        (λ ok. omega (arith, handshake-shorter version t ok, h t refl))

  -- Host mode ends with one of its exit codes, whatever the launcher sends over the socket, if there
  -- is a unit of fuel for each byte that it sends.
  pub host_main-IsExit :
      (connect : Bytes → Option Transport) (s : S) (args : List Bytes)
      → ((token : Bytes) (t : Transport) → connect token ≡ some t → length t.incoming ≤ fuel)
      → IsExit (host_main hs version fuel connect s args)
  unfolding host_main
  host_main-IsExit connect s args h = from (is_empty (ipc_token_from_args args))
    where
      from :
          (b : Bool)
          → IsExit (
              if b
              then some 64
              else connected hs version fuel s (connect (ipc_token_from_args args)))
      from true = inr (inl refl)
      from false =
          connected-IsExit s (connect (ipc_token_from_args args))
            (λ t e. h (ipc_token_from_args args) t e)
