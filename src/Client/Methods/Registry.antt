-- ===== src/Client/Methods/Registry.antt =====
-- What the handlers put into the registry of paired hosts: client.trustHost and client.pair.
use arcade_launcher_stream_e.Client.World.{◌>>=◌, ◌>>◌}
use arcade_launcher_stream_e.Net.Store.Hosts.{find_host-upsert_host}
use arcade_launcher_stream_e.Client.World.Rules.{
  Does, given, Post, Does-then, Does-require, Does-bind, Does-mono, Post-gives, Post-refuses,
  refused,
}
use arcade_launcher_stream_e.Client.Methods.{
  store_host, find_host, put_file, gives, put_text, Value, trust_host, get_str, require, yields,
}
use arcade_launcher_stream_e.Client.World.{World, refuses, require}
use arcade_launcher_stream_e.Net.Store.{PairedHost, upsert_host}
use arcade_launcher_stream_e.Json.Floats.{Floats, Ieee}
use arcade_launcher_stream_e.Base.{
  Bytes, codes, Bool, true, false, not, ◌&&◌, [], if◌then◌else◌, Option, none, some, ◌≡◌, ◌⊎◌, refl,
  ap, inl, inr, arith, bytes_eq, is_empty, subst,
}

module _ ⦃fl : Floats⦄ (laws : Ieee fl) (h : PairedHost) where
  -- The host is in the registry of `u`, and the others are those of `w`.
  abbrev pub Stored : World → World → Type 0
  Stored w u =
      (address : Bytes)
      → find_host address u.hosts_file
        ≡ (if bytes_eq h.address address then some h else find_host address w.hosts_file)

  upsert_host-named :
      (w : World) (o : Option Bytes)
      → upsert_host h w.hosts_file ≡ o
      → ((o ≡ none) × (is_empty h.address ≡ true))
        ⊎ ((text : Bytes) × (o ≡ some text) × (is_empty h.address ≡ false))
  unfolding upsert_host
  upsert_host-named w none e = inl (refl, ground arith)
  upsert_host-named w (some text) e = inr (text, refl, ground arith)

  -- What the store does, as a condition on whether it says that the host was stored
  pub record Kept (w : World) (stored : Bool) (u : World) : Type 0 where
    pub told : stored ≡ (not (is_empty h.address) && w.can_write_hosts)
    pub in_place : stored ≡ true → Stored w u
    pub untouched : stored ≡ false → u.hosts_file ≡ w.hosts_file
    pub same_session : u.session ≡ w.session
    pub same_network : u.network ≡ w.network

  -- The store says whether it has stored the host: it has a name and the file can be written.
  pub Does-store_host :
      {K : World → Type 0} (w : World) → Does (λ stored u. Kept w stored u) K (store_host h) w
  unfolding store_host put_file
  Does-store_host {K} w = record { behind = (from (upsert_host h w.hosts_file) refl).behind }
    where
      written :
          (text : Bytes)
          → upsert_host h w.hosts_file ≡ some text
          → is_empty h.address ≡ false
          → (b : Bool) → w.can_write_hosts ≡ b
          → Post (λ stored u. Kept w stored u) K (put_text b text w).0 (put_text b text w).1
      written text e named true c = given (record {
        told = ground (arith, named, c);
        in_place = λ q address. find_host-upsert_host laws h w.hosts_file text address e;
        untouched = λ q. absurd (cc q);
        same_session = refl;
        same_network = refl;
      })
      written text e named false c = given (record {
        told = ground (arith, named, c);
        in_place = λ q. absurd (cc q);
        untouched = λ q. refl;
        same_session = refl;
        same_network = refl;
      })

      from :
          (o : Option Bytes)
          → upsert_host h w.hosts_file ≡ o
          → Does (λ stored u. Kept w stored u) K (put_file o) w
      from none e = elim (upsert_host-named w none e) [
        | inl (_, named) ↦ record {
          behind = given (record {
            told = ground (arith, named);
            in_place = λ q. absurd (cc q);
            untouched = λ q. refl;
            same_session = refl;
            same_network = refl;
          });
        }
        | inr (text, n, _) ↦ absurd (cc n)
      ]
      from (some text) e = elim (upsert_host-named w (some text) e) [
        | inl (n, _) ↦ absurd (cc n)
        | inr (t, n, named) ↦ record { behind = written text e named w.can_write_hosts refl }
      ]

-- What client.trustHost asks for
abbrev pub trusted_host : ⦃fl : Floats⦄ → Value → PairedHost
trusted_host params = record {
  address = get_str params (codes "host") [];
  name = get_str params (codes "name") [];
  server_cert_pem = get_str params (codes "serverCertPem") [];
}

-- The last steps of client.trustHost
answered :
    ⦃fl : Floats⦄ (laws : Ieee fl) (h : PairedHost) (code message : Bytes) (v : Value) (w : World)
    (stored : Bool) (u : World)
    → Kept laws h w stored u
    → Does
        (λ a t. Stored laws h w t)
        (λ t. (t.hosts_file ≡ w.hosts_file) × (t.session ≡ w.session))
        (require stored code message >> yields v)
        u
unfolding require ◌>>◌ ◌>>=◌
answered laws h code message v w true u k = record { behind = given (k.in_place refl) }
answered laws h code message v w false u k = record {
  behind = refused (k.untouched refl, k.same_session);
}

Does-trust_host :
    ⦃fl : Floats⦄ (laws : Ieee fl) (params : Value) (w : World)
    → Does
        (λ v u. Stored laws (trusted_host params) w u)
        (λ u. (u.hosts_file ≡ w.hosts_file) × (u.session ≡ w.session))
        (trust_host params)
        w
unfolding trust_host
Does-trust_host laws params w =
    Does-then
      (Does-mono (λ a u j. j.1) (λ u e. (ap (λ x. x.hosts_file) e, ap (λ x. x.session) e))
        (Does-require {K = λ u. u ≡ w} _ _ _ refl))
      λ w1 same.
        Does-mono (λ v u st. subst (λ x. Stored laws (trusted_host params) x u) same st)
          (λ u k. subst (λ x. (u.hosts_file ≡ x.hosts_file) × (u.session ≡ x.session)) same k)
          (Does-bind (Does-store_host laws (trusted_host params) w1)
            λ stored w2 k. answered laws (trusted_host params) _ _ _ w1 stored w2 k)

-- When client.trustHost says that the host is trusted, the registry finds it by its address with the
-- certificate that was given, and every other host as before; when it refuses, the registry and the
-- session are those of before.
pub trust_host-finds :
    ⦃fl : Floats⦄ (laws : Ieee fl) (params : Value) (w : World)
    → ((v : Value)
        → (trust_host params w).0 ≡ gives v
        → (address : Bytes)
        → find_host address (trust_host params w).1.hosts_file ≡ (
            if bytes_eq (get_str params (codes "host") []) address
            then some (trusted_host params)
            else find_host address w.hosts_file))
      × ((code message : Bytes)
          → (trust_host params w).0 ≡ refuses code message
          → ((trust_host params w).1.hosts_file ≡ w.hosts_file)
            × ((trust_host params w).1.session ≡ w.session))
trust_host-finds laws params w = (
  λ v h. Post-gives v (Does-trust_host laws params w).behind h,
  λ code message h. Post-refuses code message (Does-trust_host laws params w).behind h,
)
