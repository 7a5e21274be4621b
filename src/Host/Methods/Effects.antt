-- ===== src/Host/Methods/Effects.antt =====
-- What the handlers leave behind in the files.
use arcade_launcher_stream_e.Host.ClientTrust.Texts.{has_trusted_client-add_trusted_client}
use arcade_launcher_stream_e.Host.ClientTrust.{parse_state, has_trusted_client, add_trusted_client}
use arcade_launcher_stream_e.Host.HostApps.Catalog.{are_apps, parse_apps_json-serialize_apps_json}
use arcade_launcher_stream_e.Json.RoundTrip.{is_portable}
use arcade_launcher_stream_e.Json.Floats.{Ieee}
use arcade_launcher_stream_e.Host.Methods.{
  trusted_answer, trust_client, sync_apps, Floats, HostState, Paths, Value, games_from_params,
  read_apps, get_str, host_path, default_name,
}
use arcade_launcher_stream_e.Base.{
  ℕ, Bytes, codes, Bool, true, false, ◌||◌, [], ◌∷◌, ◌≡◌, ◌≢◌, refl, inl, inr, Bool-cases, bytes_eq,
  bytes_eq_iff, is_empty,
}

trusted_answer_keeps :
    ⦃fl : Floats⦄ (already : Bool) (s : HostState)
    → (trusted_answer already s).1.state_file ≡ s.state_file
unfolding trusted_answer
trusted_answer_keeps true s = refl
trusted_answer_keeps false s = refl

some_code : (c : ℕ) (s : Bytes) → c ∷ s ≢ []
some_code c s e = cc

or_idem :
    (cert other : Bytes) (has : Bytes → Bool)
    → has cert ≡ true
    → has other ≡ (has other || bytes_eq cert other)
or_idem cert other has h = elim (Bool-cases (bytes_eq cert other)) [
  | inl e ↦ rw (← (bytes_eq_iff cert other).0 e, h)
  | inr e ↦ rw e (or_false (has other))
]
  where
    or_false : (b : Bool) → b ≡ (b || false)
    or_false true = refl
    or_false false = refl

-- When host.trustClient reports no error, the state file that it leaves trusts a non-empty
-- certificate exactly when it is the one of the request or was trusted before, for doubles that
-- obey the laws and a state file without non-finite numbers or -0.0.
pub trust_client-trusts :
    ⦃fl : Floats⦄ (laws : Ieee fl) (paths : Paths) (stable_uuid : Bytes → Bytes) (params : Value)
    (s : HostState) (other : Bytes)
    → is_portable (parse_state s.state_file) ≡ true
    → is_empty other ≡ false
    → (trust_client paths stable_uuid params s).0.code ≡ []
    → has_trusted_client (trust_client paths stable_uuid params s).1.state_file other ≡ (
        has_trusted_client s.state_file other
        || bytes_eq (get_str params (codes "certPem") []) other)
unfolding trust_client
trust_client-trusts laws paths stable_uuid params s other p ne ok_code =
    let cert = get_str params (codes "certPem") [] in
    let state_path = host_path paths (codes "sunshine_state.json") s.backend.apps_path in
    elim (Bool-cases (is_empty cert)) [
      | inl e ↦ absurd (cc (rw e at ok_code))
      | inr e ↦ elim (Bool-cases (is_empty state_path)) [
        | inl q ↦ absurd (cc (rw (e, q) at ok_code))
        | inr q ↦ elim (Bool-cases (has_trusted_client s.state_file cert)) [
          | inl known ↦
              rw (e, q, known, trusted_answer_keeps true s)
                (or_idem cert other (λ c. has_trusted_client s.state_file c) known)
          | inr new ↦ elim (Bool-cases s.writable) [
            | inr w ↦ absurd (cc (rw (e, q, new, w) at ok_code))
            | inl w ↦
                let next =
                  add_trusted_client s.state_file (get_str params (codes "name") default_name) cert
                    (stable_uuid cert) in
                rw
                  (
                    e,
                    q,
                    new,
                    w,
                    trusted_answer_keeps false (record s { state_file = next; writable = true }),
                  )
                  (has_trusted_client-add_trusted_client laws s.state_file
                    (get_str params (codes "name") default_name) cert (stable_uuid cert) other p ne)
          ]
        ]
      ]
    ]

pub sync_apps-games :
    ⦃fl : Floats⦄ (laws : Ieee fl) (windows : Bool) (params : Value) (s : HostState)
    → are_apps (games_from_params windows params) ≡ true
    → (sync_apps windows params s).0.code ≡ []
    → read_apps (sync_apps windows params s).1.apps_file ≡ games_from_params windows params
unfolding sync_apps
sync_apps-games laws windows params s h ok_code = elim (Bool-cases s.writable) [
  | inl w ↦ rw w (
      unfold read_apps in
      parse_apps_json-serialize_apps_json laws (games_from_params windows params) h)
  | inr w ↦ absurd (cc (rw w at ok_code))
]
