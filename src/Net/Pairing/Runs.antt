-- ===== src/Net/Pairing/Runs.antt =====
-- The runs of a flow, and a way to prove what all of them have in common.
use arcade_launcher_stream_e.Net.Pairing.{
  Flow, PairResult, done, transport, set_pinned_cert, random,
}
use arcade_launcher_stream_e.Base.{ℕ, Bytes, Bool, List, [], ◌∷◌}

pub data Event : Type 0 where
  -- a request and its answer
  requested : Bool → Bytes → Bytes → Bytes → Event
  pinned : Bytes → Event
  -- random bytes, as they came
  drawn : Bytes → Event

-- `Runs flow events r`: the flow makes these calls, with these answers, and returns r.
pub data Runs : Flow → List Event → PairResult → Type 0 where
  returns : {r : PairResult} → Runs (done r) [] r
  requests :
      {https : Bool} {command args : Bytes} {next : Bytes → Flow} {events : List Event}
      {r : PairResult} (reply : Bytes)
      → Runs (next reply) events r
      → Runs (transport https command args next) (requested https command args reply ∷ events) r
  pins :
      {pem : Bytes} {next : Flow} {events : List Event} {r : PairResult}
      → Runs next events r
      → Runs (set_pinned_cert pem next) (pinned pem ∷ events) r
  draws :
      {n : ℕ} {next : Bytes → Flow} {events : List Event} {r : PairResult} (bytes : Bytes)
      → Runs (next bytes) events r
      → Runs (random n next) (drawn bytes ∷ events) r

-- Whatever the calls return, P holds of the events and the result.
abbrev pub Always : (List Event → PairResult → Type 0) → Flow → Type 0
Always P (done r) = P [] r
Always P (transport https command args next) =
    (reply : Bytes) → Always (λ es. P (requested https command args reply ∷ es)) (next reply)
Always P (set_pinned_cert pem next) = Always (λ es. P (pinned pem ∷ es)) next
Always P (random n next) = (bytes : Bytes) → Always (λ es. P (drawn bytes ∷ es)) (next bytes)

pub Always-Runs :
    (P : List Event → PairResult → Type 0) {flow : Flow} {events : List Event} {r : PairResult}
    → Always P flow
    → Runs flow events r
    → P events r
Always-Runs P a returns = a
Always-Runs P a (requests reply run) =
    Always-Runs (λ es. P (requested _ _ _ reply ∷ es)) (a reply) run
Always-Runs P a (pins run) = Always-Runs (λ es. P (pinned _ ∷ es)) a run
Always-Runs P a (draws bytes run) = Always-Runs (λ es. P (drawn bytes ∷ es)) (a bytes) run
