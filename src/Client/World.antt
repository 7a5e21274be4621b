-- ===== src/Client/World.antt =====
-- What the handlers of client mode, src/client/stream_main.cpp, work on, and the steps they are made
-- of: a step gives a value, or leaves an error code and a message.
pub mod Rules
use arcade_launcher_stream_e.Client.Session.{Session}
use arcade_launcher_stream_e.Net.Pairing.{ClientIdentity}
use arcade_launcher_stream_e.Net.Network.{Network}
use arcade_launcher_stream_e.Net.Identity.{IdentityFiles}
use arcade_launcher_stream_e.Base.{Bytes, Bool, if◌then◌else◌, Option, none, some}

-- The files of the store, what the generators of an identity will give, the network, and the session.
-- `ended` is set when the program has been ended by `std::terminate`: nothing that a model says behind
-- that is about the program.
pub record World : Type 0 where
  pub hosts_file : Option Bytes
  pub can_write_hosts : Bool
  pub identity_files : IdentityFiles
  pub fresh_identity : Option ClientIdentity
  pub fresh_unique_id : Bytes
  pub network : Network
  pub session : Session
  pub ended : Bool

pub data Answer (A : Type 0) : Type 0 where
  gives : A → Answer A
  refuses : Bytes → Bytes → Answer A

abbrev pub M : Type 0 → Type 0
M A = World → Answer A × World

abbrev pub then_do : {A B : Type 0} → (A → M B) → Answer A × World → Answer B × World
then_do next (gives a, w) = next a w
then_do next (refuses code message, w) = (refuses code message, w)

infixl 5 ◌>>=◌ ◌>>◌
unfoldable pub ◌>>=◌ : {A B : Type 0} → M A → (A → M B) → M B
◌>>=◌ m next w = then_do next (m w)

unfoldable pub ◌>>◌ : {B : Type 0} → M (Unit {0}) → M B → M B
unfolding ◌>>=◌
m >> next = m >>= λ _. next

abbrev pub yields : {A : Type 0} → A → M A
yields a w = (gives a, w)

abbrev pub refuse : {A : Type 0} → Bytes → Bytes → M A
refuse code message w = (refuses code message, w)

-- Go on only if the test holds.
unfoldable pub require : Bool → Bytes → Bytes → M (Unit {0})
require test code message w = if test then (gives tt, w) else (refuses code message, w)

-- A step on the network
unfoldable pub on_network : {A : Type 0} → (Network → A × Network) → M A
on_network call w = let (a, net) = call w.network in (gives a, record w { network = net })

-- A value that may be missing
unfoldable pub needed : {A : Type 0} → Bytes → Bytes → Option A → M A
needed code message none = refuse code message
needed code message (some a) = yields a
