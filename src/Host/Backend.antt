-- ===== src/Host/Backend.antt =====
-- `SunshineBackend` of src/host/sunshine_backend.cpp on POSIX systems: the program, its arguments,
-- and the one child process. What the system calls answer is given in advance by the `System`.
use arcade_launcher_stream_e.Base.{
  ℕ, zero, suc, Bytes, codes, Bool, true, false, not, ◌&&◌, List, [], ◌∷◌, ◌++◌, ◌==◌,
  if◌then◌else◌, is_empty,
}
pub mod Children
pub mod Setup

-- the name of the program, and the separator in paths
abbrev pub sunshine_name : Bytes
sunshine_name = codes "sunshine"

unfoldable pub ends_with : ℕ → Bytes → Bool
ends_with c [] = false
ends_with c (d ∷ []) = d == c
ends_with c (d ∷ e ∷ s) = ends_with c (e ∷ s)

abbrev pub beside : Bytes → Bytes
beside dir = (if ends_with b'/' dir then dir else dir ++ (b'/' ∷ [])) ++ sunshine_name

-- `exists` is the test for a file.
unfoldable pub resolve_sunshine_binary : (Bytes → Bool) → Bytes → Bytes → Bytes
resolve_sunshine_binary exists engine_dir env_override =
    if not (is_empty env_override) && exists env_override
    then env_override
    else if not (is_empty engine_dir) && exists (beside engine_dir)
    then beside engine_dir
    else []

-- The calls of std::filesystem::path: `parent_path`, and `/` with a name.
pub record Paths : Type 0 where
  pub parent_path : Bytes → Bytes
  pub join : Bytes → Bytes → Bytes

module _ (paths : Paths) where
  unfoldable pub host_path : Bytes → Bytes → Bytes
  host_path file apps_path =
      if is_empty apps_path then [] else paths.join (paths.parent_path apps_path) file

  unfoldable pub build_host_args : Bytes → List Bytes
  build_host_args apps_path =
      if is_empty apps_path
      then []
      else (codes "file_apps=" ++ apps_path)
        ∷ (codes "log_path=" ++ paths.join (paths.parent_path apps_path) (codes "sunshine.log"))
        ∷ codes "min_log_level=1"
        ∷ (codes "file_state=" ++ host_path (codes "sunshine_state.json") apps_path)
        ∷ (codes "cert=" ++ host_path (codes "cert.pem") apps_path)
        ∷ (codes "pkey=" ++ host_path (codes "pkey.pem") apps_path)
        ∷ []

  unfoldable pub sunshine_work_dir : Bytes → Bytes
  sunshine_work_dir binary = if is_empty binary then [] else paths.parent_path binary

-- The members of the class; `pid` is 0 without a child.
pub record Backend : Type 0 where
  pub apps_path : Bytes
  pub binary : Bytes
  pub pid : ℕ

-- What `waitpid` with WNOHANG answers: 0, the child, or -1.
pub data Poll : Type 0 where
  still_running : Poll
  ended : Poll
  wait_failed : Poll

-- What the system will answer: each `waitpid` with WNOHANG, whether each blocking `waitpid` gives the
-- child and not -1, and the child that each `fork` gives, 0 for a failure. And what it was asked: the
-- children that were started, those that were waited for to their end, those that were let go of
-- because `waitpid` failed, and those that got SIGTERM and SIGKILL.
pub record System : Type 0 where
  pub polls : List Poll
  pub waits : List Bool
  pub forks : List ℕ
  pub spawned : List ℕ
  pub reaped : List ℕ
  pub lost : List ℕ
  pub terminated : List ℕ
  pub killed : List ℕ

-- Past the end of the list a call fails.
abbrev pub next_poll : List Poll → Poll × List Poll
next_poll [] = (wait_failed, [])
next_poll (p ∷ ps) = (p, ps)

abbrev pub next_wait : List Bool → Bool × List Bool
next_wait [] = (false, [])
next_wait (r ∷ rs) = (r, rs)

abbrev pub next_fork : List ℕ → ℕ × List ℕ
next_fork [] = (0, [])
next_fork (n ∷ ns) = (n, ns)

-- The child is waited for.
abbrev pub reap : Backend → System → Backend × System
reap b w = (record b { pid = 0 }, record w { reaped = w.reaped ++ (b.pid ∷ []) })

-- The child is let go of, waited for or not.
abbrev pub lose : Backend → System → Backend × System
lose b w = (record b { pid = 0 }, record w { lost = w.lost ++ (b.pid ∷ []) })

abbrev pub on_poll : Poll → Backend → System → Bool × Backend × System
on_poll still_running b w = (true, b, w)
on_poll ended b w = let (b', w') = reap b w in (false, b', w')
on_poll wait_failed b w = let (b', w') = lose b w in (false, b', w')

-- `running`
unfoldable pub running : Backend → System → Bool × Backend × System
running b w =
    let (answer, polls) = next_poll w.polls in
    if b.pid == 0 then (false, b, w) else on_poll answer b (record w { polls = polls })

-- How `start` ends.
pub data Started : Type 0 where
  started : Started
  not_started : Bytes → Started

-- The `fork` of `start`; the child runs the program.
unfoldable pub spawn : Backend → System → Started × Backend × System
spawn b w =
    let (child, forks) = next_fork w.forks in
    if child == 0 then (not_started (codes "fork failed"), b, record w { forks = forks }) else (
      started,
      record b { pid = child },
      record w { forks = forks; spawned = w.spawned ++ (child ∷ []) },
    )

abbrev pub unless_running : Bool × Backend × System → Started × Backend × System
unless_running (alive, b, w) =
    if alive
    then (started, b, w)
    else if is_empty b.binary
    then (
      not_started (
          codes
            "no engine-managed Sunshine found (set ARCADE_SUNSHINE to the fetched sidecar, or ship sunshine beside the engine)"),
      b,
      w,
    )
    else spawn b w

unfoldable pub start : Backend → System → Started × Backend × System
start b w = unless_running (running b w)

-- The loop of `stop`, with the rounds that are left
unfoldable pub wait_loop : ℕ → Backend → System → Backend × System
wait_loop zero b w = (b, w)
wait_loop (suc n) b w =
    let (alive, b', w') = running b w in
    let rest = wait_loop n b' w' in if alive then rest else (b', w')

-- The end of `stop`: whatever the blocking `waitpid` answers, there is no child any more.
unfoldable pub force : Backend × System → Backend × System
force (b, w) =
    let (waited, waits) = next_wait w.waits in
    let asked = record w { waits = waits; killed = w.killed ++ (b.pid ∷ []) } in
    if b.pid == 0 then (b, w) else if waited then reap b asked else lose b asked

abbrev pub if_running : Bool × Backend × System → Backend × System
if_running (alive, b, w) =
    if alive
    then force (wait_loop 50 b (record w { terminated = w.terminated ++ (b.pid ∷ []) }))
    else (b, w)

-- `stop`, which always returns true
unfoldable pub stop : Backend → System → Backend × System
stop b w = if_running (running b w)
