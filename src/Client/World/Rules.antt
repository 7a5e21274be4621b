-- ===== src/Client/World/Rules.antt =====
-- Conditions behind the steps of a handler, and how they pass through a chain of steps.
use arcade_launcher_stream_e.Client.World.{◌>>=◌, ◌>>◌, on_network, Network}
use arcade_launcher_stream_e.Client.World.{
  World, Answer, gives, M, require, needed, refuses, then_do,
}
use arcade_launcher_stream_e.Base.{Bytes, Bool, true, false, Option, none, some, ◌≡◌, refl, subst}

gives-injective : {A : Type 0} (a b : A) → ◌≡◌ {A = Answer A} (gives a) (gives b) → a ≡ b
gives-injective a b h = cc

-- J holds of what is given and of the world behind it; if the step refuses, K holds of the world.
pub data Post {A : Type 0} (J : A → World → Type 0) (K : World → Type 0)
    : Answer A → World → Type 0 where
  given : {a : A} {w : World} → J a w → Post J K (gives a) w
  refused : {code message : Bytes} {w : World} → K w → Post J K (refuses code message) w

-- What a step does from a world on
pub record Does {A : Type 0} (J : A → World → Type 0) (K : World → Type 0) (m : M A) (w : World)
    : Type 0 where
  pub behind : Post J K (m w).0 (m w).1

then_do-Post :
    {A B : Type 0} {J : A → World → Type 0} {K : World → Type 0} {L : B → World → Type 0}
    (next : A → M B) {x : Answer A} {w : World}
    → Post J K x w
    → ((a : A) (v : World) → J a v → Does L K (next a) v)
    → Post L K (then_do next (x, w)).0 (then_do next (x, w)).1
then_do-Post next (given {a} {w} j) follow = (follow a w j).behind
then_do-Post next (refused k) follow = refused k

pub Does-bind :
    {A B : Type 0} {J : A → World → Type 0} {K : World → Type 0} {L : B → World → Type 0} {m : M A}
    {next : A → M B} {w : World}
    → Does J K m w
    → ((a : A) (v : World) → J a v → Does L K (next a) v)
    → Does L K (m >>= next) w
unfolding ◌>>=◌
Does-bind {next} done follow = record { behind = then_do-Post next done.behind follow }

pub Does-then :
    {B : Type 0} {J : Unit {0} → World → Type 0} {K : World → Type 0} {L : B → World → Type 0}
    {m : M (Unit {0})} {next : M B} {w : World}
    → Does J K m w
    → ((v : World) → J tt v → Does L K next v)
    → Does L K (m >> next) w
unfolding ◌>>◌
Does-then {next} done follow = Does-bind {next = λ _. next} done (λ u v j. follow v j)

pub Does-require :
    {K : World → Type 0} (test : Bool) (code message : Bytes) {w : World}
    → K w
    → Does (λ _ v. (test ≡ true) × K v) K (require test code message) w
unfolding require
Does-require true code message k = record { behind = given (refl, k) }
Does-require false code message k = record { behind = refused k }

pub Does-needed :
    {A : Type 0} {K : World → Type 0} (code message : Bytes) (o : Option A) {w : World}
    → K w
    → Does (λ a v. (o ≡ some a) × K v) K (needed code message o) w
unfolding needed
Does-needed code message none k = record { behind = refused k }
Does-needed code message (some a) k = record { behind = given (refl, k) }

pub Does-network :
    {A : Type 0} {J : A → World → Type 0} {K : World → Type 0} (call : Network → A × Network)
    (w : World)
    → J (call w.network).0 (record w { network = (call w.network).1 })
    → Does J K (on_network call) w
unfolding on_network
Does-network call w j = record { behind = given j }

pub Post-weaken :
    {A : Type 0} {J L : A → World → Type 0} {K : World → Type 0} {x : Answer A} {w : World}
    → ((a : A) (v : World) → J a v → L a v)
    → Post J K x w
    → Post L K x w
Post-weaken weaker (given {a} {w} j) = given (weaker a w j)
Post-weaken weaker (refused k) = refused k

-- What holds behind a value that was given, and behind a refusal
pub Post-gives :
    {A : Type 0} {J : A → World → Type 0} {K : World → Type 0} {x : Answer A} {w : World} (a : A)
    → Post J K x w
    → x ≡ gives a
    → J a w
Post-gives {J} a (given {a = b} {w} j) h = subst (λ c. J c w) (gives-injective b a h) j
Post-gives a (refused k) h = absurd (cc h)

pub Post-refuses :
    {A : Type 0} {J : A → World → Type 0} {K : World → Type 0} {x : Answer A} {w : World}
    (code message : Bytes)
    → Post J K x w
    → x ≡ refuses code message
    → K w
Post-refuses code message (given j) h = absurd (cc h)
Post-refuses code message (refused k) h = k

pub Does-mono :
    {A : Type 0} {J L : A → World → Type 0} {K N : World → Type 0} {m : M A} {w : World}
    → ((a : A) (v : World) → J a v → L a v)
    → ((v : World) → K v → N v)
    → Does J K m w
    → Does L N m w
Does-mono {A} {J} {L} {K} {N} weaker worse done = record { behind = from done.behind }
  where
    from : {x : Answer A} {v : World} → Post J K x v → Post L N x v
    from (given {a} {w} j) = given (weaker a w j)
    from (refused {w = v} k) = refused (worse v k)
