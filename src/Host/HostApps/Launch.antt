-- ===== src/Host/HostApps/Launch.antt =====
-- When the launch command is wrapped in the opener of URIs.
use arcade_launcher_stream_e.Host.HostApps.{host_launch_command, is_uri_target, contains}
use arcade_launcher_stream_e.Base.{
  contains, ◌<◌, Bytes, codes, Bool, true, false, ◌||◌, [], ◌∷◌, ◌++◌, if◌then◌else◌, ◌≡◌, ◌≢◌, ◌↔◌,
  refl, ap, inl, inr, arith, length, length-append, Bool-cases, is_empty,
}

append_longer : (p s q : Bytes) → 0 < length p → p ++ (s ++ q) ≢ s
append_longer p s q h e = omega (arith, length-append p (s ++ q), length-append s q, ap length e)

no_uri : (cmd : Bytes) → is_empty cmd ≡ true → is_uri_target cmd ≢ true
unfolding is_uri_target is_empty contains
no_uri [] e h = cc
no_uri (c ∷ cmd) e h = cc

wrapped :
    (windows : Bool) (cmd : Bytes)
    → (if windows
        then codes "cmd /C start \"\" \"" ++ cmd ++ codes "\""
        else codes "xdg-open \"" ++ cmd ++ codes "\"")
      ≢ cmd
wrapped true cmd = append_longer (codes "cmd /C start \"\" \"") cmd (codes "\"") (omega arith)
wrapped false cmd = append_longer (codes "xdg-open \"") cmd (codes "\"") (omega arith)

by_bool : true ≢ false
by_bool h = cc

or_true : (b : Bool) → (b || true) ≡ true
or_true true = refl
or_true false = refl

-- The launch command is the command itself exactly when that is no URI; under either operating
-- system, every URI is wrapped.
pub host_launch_command_same_iff :
    (windows : Bool) (cmd : Bytes)
    → (host_launch_command windows cmd ≡ cmd) ↔ (is_uri_target cmd ≡ false)
unfolding host_launch_command
host_launch_command_same_iff windows cmd = elim (Bool-cases (is_uri_target cmd)) [
  | inl uri ↦ elim (Bool-cases (is_empty cmd)) [
    | inl e ↦ absurd (no_uri cmd e uri)
    | inr e ↦ rw (uri, e) (λ same. absurd (wrapped windows cmd same), λ h. absurd (by_bool h))
  ]
  | inr plain ↦ rw (plain, or_true (is_empty cmd)) (λ _. refl, λ _. refl)
]
