-- ===== src/Net/Launch/Answered.antt =====
-- When a session is launched, and what was asked of the host.
use arcade_launcher_stream_e.Net.Launch.{
  with_url, read_answer, launch_or_resume, xml_text, launched, run_launch, launch_args,
  LaunchConfig, is_idle, build_launch_args, build_resume_args, not_launched,
}
use arcade_launcher_stream_e.Net.Xml.{xml_attr}
use arcade_launcher_stream_e.Base.{
  Bytes, codes, true, false, if◌then◌else◌, ◌≡◌, ◌≢◌, ◌↔◌, ap, inl, inr, arith, Bool-cases,
  bytes_eq, bytes_eq_iff, is_empty, ℤ,
}

-- An answer that gives a session: status 200, and a URL.
pub record Grants (resp url : Bytes) : Type 0 where
  pub answered : is_empty resp ≡ false
  pub status : xml_attr resp (codes "root") (codes "status_code") ≡ codes "200"
  pub session : xml_text resp (codes "sessionUrl0") ≡ url
  pub has_url : is_empty url ≡ false

launched-injective : (a b : Bytes) → launched a ≡ launched b → a ≡ b
launched-injective a b h = cc

with_url-launched :
    (verb found url : Bytes)
    → (with_url verb found ≡ launched url) ↔ ((found ≡ url) × (is_empty url ≡ false))
with_url-launched verb found url = elim (Bool-cases (is_empty found)) [
  | inl e ↦ rw e (λ h. absurd (not_both h), λ (same, has). absurd (both found url e same has))
  | inr e ↦ rw e (
    λ h. let same = launched-injective found url h in (same, rw (← same, e)),
    λ (same, has). rw same,
  )
]
  where
    not_both : {a b : Bytes} → not_launched a ≢ launched b
    not_both h = cc

    both : (a b : Bytes) → is_empty a ≡ true → a ≡ b → is_empty b ≡ false → ⊥
    both a b e same has = cc (ap is_empty same)

read_answer-launched_iff :
    (verb resp url : Bytes) → (read_answer verb resp ≡ launched url) ↔ Grants resp url
unfolding read_answer
read_answer-launched_iff verb resp url =
    let status = bytes_eq_iff (xml_attr resp (codes "root") (codes "status_code")) (codes "200") in
    let found = with_url-launched verb (xml_text resp (codes "sessionUrl0")) url in
    (
      λ h. ground (arith, status, found),
      λ g. ground (arith, status, found, g.answered, g.status, g.session, g.has_url),
    )

-- `launch_or_resume` gives a session exactly when the host has answered with status 200 and the
-- session's URL to one request: "launch" with the full configuration when no app is running there,
-- and "resume" with the new keys when one is.
pub launch_or_resume-launched_iff :
    (send : Bytes → Bytes → Bytes) (cfg : LaunchConfig) (current_game : ℤ) (url : Bytes)
    → (launch_or_resume send cfg current_game ≡ launched url)
      ↔ Grants
          (if is_idle current_game
            then send (codes "launch") (build_launch_args cfg)
            else send (codes "resume") (build_resume_args cfg))
          url
unfolding launch_or_resume run_launch launch_args bytes_eq
launch_or_resume-launched_iff send cfg current_game url = elim (Bool-cases (is_idle current_game)) [
  | inl e ↦ rw e (read_answer-launched_iff (codes "launch") _ url)
  | inr e ↦ rw e (read_answer-launched_iff (codes "resume") _ url)
]
