-- ===== src/Base/Result.antt =====
-- What a parser on fuel gives, and what can be said of it without a look at its value.
use mathlib.Core.Path.{◌≡◌, refl, subst}
use mathlib.Core.Logic.{◌≢◌}
use mathlib.Core.Bool.{Bool, true, false}
use arcade_launcher_stream_e.Base.Tests.{if◌then◌else◌}

-- The parser's `ok == false` is `failed`; the program has nothing like `out_of_fuel`.
pub data Result {ℓ} (A : Type ℓ) : Type ℓ where
  failed : Result A
  out_of_fuel : Result A
  ok : A → Result A

infixl 5 ◌>>=◌
abbrev pub ◌>>=◌ {ℓ κ} : {A : Type ℓ} {B : Type κ} → Result A → (A → Result B) → Result B
failed >>= next = failed
out_of_fuel >>= next = out_of_fuel
ok value >>= next = next value

-- There was fuel enough, and if there is a value, it has the property.
pub data Ensures {ℓ κ} {A : Type ℓ} (Q : A → Type κ) : Result A → Type (ℓ ⊔ κ) where
  rejected : Ensures Q failed
  holds : {value : A} → Q value → Ensures Q (ok value)

-- A weaker property.
pub Ensures-mono {ℓ κ μ} :
    {A : Type ℓ} {Q : A → Type κ} {R : A → Type μ} {run : Result A}
    → ((value : A) → Q value → R value)
    → Ensures Q run
    → Ensures R run
Ensures-mono weaken rejected = rejected
Ensures-mono weaken (holds {value} q) = holds (weaken value q)

-- One step, and what follows it.
pub Ensures-bind {ℓ κ μ ν} :
    {A : Type ℓ} {P : A → Type κ} {B : Type μ} {Q : B → Type ν} {run : Result A}
    {next : A → Result B}
    → Ensures P run
    → ((value : A) → P value → Ensures Q (next value))
    → Ensures Q (run >>= next)
Ensures-bind rejected follow = rejected
Ensures-bind (holds {value} p) follow = follow value p

-- Both branches of a test.
pub Ensures-if {ℓ κ} :
    {A : Type ℓ} {Q : A → Type κ} (test : Bool) {yes no : Result A}
    → (test ≡ true → Ensures Q yes)
    → (test ≡ false → Ensures Q no)
    → Ensures Q (if test then yes else no)
Ensures-if false on_yes on_no = on_no refl
Ensures-if true on_yes on_no = on_yes refl

pub Ensures-out_of_fuel {ℓ κ} :
    {A : Type ℓ} {Q : A → Type κ} {run : Result A} → Ensures Q run → run ≢ out_of_fuel
Ensures-out_of_fuel rejected = cc
Ensures-out_of_fuel (holds q) = cc

pub Ensures-ok {ℓ κ} :
    {A : Type ℓ} {Q : A → Type κ} {run : Result A} {value : A}
    → Ensures Q run
    → run ≡ ok value
    → Q value
Ensures-ok rejected same = cc
Ensures-ok {Q = Q} (holds q) same = subst Q (cc same) q
