-- ===== src/Net/Identity/Kept.antt =====
-- An identity that was given once is given from then on.
use arcade_launcher_stream_e.Net.Identity.{
  IdentityFiles, create, load_or_create_identity, is_complete, stored,
}
use arcade_launcher_stream_e.Net.Pairing.{ClientIdentity}
use arcade_launcher_stream_e.Base.{
  Bytes, Bool, true, false, not, ◌||◌, Option, none, some, ◌≡◌, inl, inr, arith, Bool-cases,
  is_empty,
}

-- What is generated is no empty text.
abbrev pub Whole : Option ClientIdentity → Type 0
Whole none = Unit
Whole (some fresh) = (is_empty fresh.cert_pem ≡ false) × (is_empty fresh.key_pem ≡ false)

complete_case :
    (fresh : Option ClientIdentity) (uid : Bytes) (files : IdentityFiles)
    → is_complete files ≡ true
    → load_or_create_identity fresh uid files ≡ (some (stored files), files)
unfolding load_or_create_identity
complete_case fresh uid files h = rw h

incomplete_case :
    (fresh : Option ClientIdentity) (uid : Bytes) (files : IdentityFiles)
    → is_complete files ≡ false
    → load_or_create_identity fresh uid files ≡ create fresh uid files
unfolding load_or_create_identity
incomplete_case fresh uid files h = rw h

some-injective :
    (a b : ClientIdentity × Bytes)
    → ◌≡◌ {A = Option (ClientIdentity × Bytes)} (some a) (some b)
    → a ≡ b
some-injective a b h = cc

is_complete-created :
    (cert key uid : Bytes) (can_write : Bool)
    → is_empty cert ≡ false
    → is_empty key ≡ false
    → is_empty uid ≡ false
    → is_complete (record {
      cert_file = some cert;
      key_file = some key;
      uid_file = some uid;
      can_write = can_write;
    })
      ≡ true
unfolding is_complete
is_complete-created cert key uid can_write h k m = rw (h, k, m)

created_again :
    (fresh fresh' : Option ClientIdentity) (uid uid' : Bytes) (files : IdentityFiles)
    (given : ClientIdentity × Bytes)
    → Whole fresh
    → (create fresh uid files).0 ≡ some given
    → load_or_create_identity fresh' uid' (create fresh uid files).1
      ≡ (some given, (create fresh uid files).1)
created_again none fresh' uid uid' files given h e = cc
created_again (some fresh) fresh' uid uid' files given h e =
    elim (Bool-cases (is_empty uid || not files.can_write)) [
      | inl q ↦ absurd (cc (rw q at e))
      | inr q ↦
          let same = some-injective (fresh, uid) given (rw q at e) in
          let whole =
            is_complete-created fresh.cert_pem fresh.key_pem uid files.can_write h.0 h.1
              (ground (arith, q)) in
          rw (q, ← same) (complete_case fresh' uid' _ whole)
    ]

-- When `load_or_create_identity` has given an identity, a later call gives the same one and writes
-- nothing, whatever would be generated then, if what was generated the first time is not empty.
pub load_or_create_identity_again :
    (fresh fresh' : Option ClientIdentity) (uid uid' : Bytes) (files : IdentityFiles)
    (given : ClientIdentity × Bytes)
    → Whole fresh
    → (load_or_create_identity fresh uid files).0 ≡ some given
    → load_or_create_identity fresh' uid' (load_or_create_identity fresh uid files).1
      ≡ (some given, (load_or_create_identity fresh uid files).1)
load_or_create_identity_again fresh fresh' uid uid' files given h e =
    elim (Bool-cases (is_complete files)) [
      | inl q ↦
          let same =
            some-injective (stored files) given (rw (complete_case fresh uid files q) at e) in
          rw (complete_case fresh uid files q, ← same) (complete_case fresh' uid' files q)
      | inr q ↦ rw (incomplete_case fresh uid files q) (
          created_again fresh fresh' uid uid' files given h
            (rw (incomplete_case fresh uid files q) at e))
    ]
