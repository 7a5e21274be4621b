-- ===== src/Client/StreamMain/Exits.antt =====
-- Client mode ends with one of its exit codes.
use arcade_launcher_stream_e.Client.StreamMain.{Ending, exits, aborts, unfinished}
use arcade_launcher_stream_e.Json.Floats.{Floats}
use arcade_launcher_stream_e.Base.{ℕ, ◌≡◌, ◌⊎◌}

-- How client mode ends behind the test of its arguments: with an exit code but 64, or by
-- `std::terminate`
abbrev pub IsServed : Ending → Type 0
IsServed (exits code) = (code ≡ 0) ⊎ (code ≡ 69) ⊎ (code ≡ 70)
IsServed aborts = Unit
IsServed unfinished = ⊥

abbrev code_of : Ending → ℕ
code_of (exits code) = code
code_of _ = 0

-- An exit code of the program, or its end by `std::terminate`
abbrev pub IsEnding : Ending → Type 0
IsEnding e = (e ≡ exits 64) ⊎ IsServed e
