-- ===== src/Net/Identity.antt =====
-- `load_or_create_identity` of src/net/identity_store.cpp. What `generate_identity` and
-- `generate_unique_id` give is an argument: `none`, and the empty text, where they fail.
use arcade_launcher_stream_e.Net.Pairing.{ClientIdentity}
use arcade_launcher_stream_e.Base.{
  Bytes, Bool, not, ◌&&◌, ◌||◌, [], if◌then◌else◌, Option, none, some, is_empty,
}
pub mod Kept
pub mod UniqueId

-- The three files, `none` where one cannot be read, and whether files can be written.
pub record IdentityFiles : Type 0 where
  pub cert_file : Option Bytes
  pub key_file : Option Bytes
  pub uid_file : Option Bytes
  pub can_write : Bool

-- What `read_file` leaves in its output, which starts empty.
abbrev pub text_in : Option Bytes → Bytes
text_in none = []
text_in (some s) = s

-- All three pieces are present and not empty.
unfoldable pub is_complete : IdentityFiles → Bool
is_complete files =
    not (is_empty (text_in files.cert_file))
    && not (is_empty (text_in files.key_file))
    && not (is_empty (text_in files.uid_file))

abbrev pub stored : IdentityFiles → ClientIdentity × Bytes
stored files = (
  record { cert_pem = text_in files.cert_file; key_pem = text_in files.key_file },
  text_in files.uid_file,
)

abbrev pub create :
    Option ClientIdentity → Bytes → IdentityFiles → Option (ClientIdentity × Bytes) × IdentityFiles
create none uid files = (none, files)
create (some fresh) uid files = if is_empty uid || not files.can_write then (none, files) else (
  some (fresh, uid),
  record files {
    cert_file = some fresh.cert_pem;
    key_file = some fresh.key_pem;
    uid_file = some uid;
  },
)

unfoldable pub load_or_create_identity :
    Option ClientIdentity → Bytes → IdentityFiles → Option (ClientIdentity × Bytes) × IdentityFiles
load_or_create_identity fresh uid files =
    if is_complete files then (some (stored files), files) else create fresh uid files
