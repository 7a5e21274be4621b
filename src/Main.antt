-- ===== src/Main.antt =====
-- The command line: src/main.cpp, `ipc_token_from_args` of src/ipc/ipc.cpp, and `host_main` of
-- src/host/host_main.cpp. What is printed is left out; the results are the exit codes.
pub mod Exits
use arcade_launcher_stream_e.Json.Floats.{Floats}
use arcade_launcher_stream_e.Ipc.Server.{
  Finish, Outcome, Handlers, run, handshake, clean, error, out_of_fuel, success, failure,
}
use arcade_launcher_stream_e.Ipc.Transport.{Transport}
use arcade_launcher_stream_e.Base.{
  ℕ, Bytes, codes, Bool, true, not, List, [], ◌∷◌, ◌++◌, if◌then◌else◌, Option, none, some, ◌≡◌,
  refl, arith, bytes_eq, is_empty, ◌||◌, ◌&&◌,
}

unfoldable pub ipc_token_from_args : List Bytes → Bytes
ipc_token_from_args [] = []
ipc_token_from_args (a ∷ []) = []
ipc_token_from_args (a ∷ b ∷ args) =
    let later = ipc_token_from_args (b ∷ args) in if bytes_eq a (codes "--ipc") then b else later

-- No argument is the option.
unfoldable pub has_no_option : List Bytes → Bool
has_no_option [] = true
has_no_option (a ∷ args) = not (bytes_eq a (codes "--ipc")) && has_no_option args

-- The token is the argument behind the first option.
pub ipc_token_from_args-append :
    (before : List Bytes) (token : Bytes) (args : List Bytes)
    → has_no_option before ≡ true
    → ipc_token_from_args (before ++ (codes "--ipc" ∷ token ∷ args)) ≡ token
unfolding ipc_token_from_args has_no_option bytes_eq
ipc_token_from_args-append [] token args h = refl
ipc_token_from_args-append (a ∷ []) token args h = ground (arith)
ipc_token_from_args-append (a ∷ b ∷ before) token args h =
    ground (arith, ipc_token_from_args-append (b ∷ before) token args)

-- The two modes are given by their exit codes.
unfoldable pub dispatch_mode : (List Bytes → ℕ) → (List Bytes → ℕ) → Bytes → List Bytes → ℕ
dispatch_mode host_mode stream_mode cmd rest =
    if bytes_eq cmd (codes "--version") || bytes_eq cmd (codes "version")
    then 0
    else if bytes_eq cmd (codes "--help")
        || bytes_eq cmd (codes "-h")
        || bytes_eq cmd (codes "help")
    then 0
    else if bytes_eq cmd (codes "host")
    then host_mode rest
    else if bytes_eq cmd (codes "stream")
    then stream_mode rest
    else 2

unfoldable pub main : (List Bytes → ℕ) → (List Bytes → ℕ) → List Bytes → ℕ
main host_mode stream_mode (prog ∷ cmd ∷ args) =
    dispatch_mode host_mode stream_mode cmd (cmd ∷ args)
main host_mode stream_mode _ = 2

-- The exit code of `run`, `none` where its model is out of fuel
abbrev pub run_code : Finish → Option ℕ
run_code clean = some 0
run_code (error err) = some 70
run_code out_of_fuel = none

module _ ⦃fl : Floats⦄ {S : Type 0} (hs : Handlers S) (version : Bytes) (fuel : ℕ) where
  abbrev pub serve_from : S → Outcome × Transport → Option ℕ
  serve_from s (failure err, t) = some 70
  serve_from s (success, t) = run_code (run hs fuel t s).0

  abbrev pub connected : S → Option Transport → Option ℕ
  connected s none = some 69
  connected s (some t) = serve_from s (handshake version t)

  -- `host_main`; `connect` is `connect_local`.
  unfoldable pub host_main : (Bytes → Option Transport) → S → List Bytes → Option ℕ
  host_main connect s args =
      let token = ipc_token_from_args args in
      if is_empty token then some 64 else connected s (connect token)
