-- ===== src/Net/AppList/Resolved.antt =====
-- What a reference to an app resolves to.
use arcade_launcher_stream_e.Net.AppList.Listed.{are_listed, is_listed}
use arcade_launcher_stream_e.Net.AppList.{are_digits, resolve_app_id, AppInfo, find_title, iequals}
use arcade_launcher_stream_e.Base.{
  ℕ, ◌<◌, Bytes, Bool, true, false, not, ◌&&◌, List, [], ◌∷◌, ◌≡◌, ◌≢◌, ◌↔◌, refl, inl, inr, arith,
  Bool-cases, is_empty, ℤ, pos, negsuc, atoi, to_string, to_string_ℤ, above, all_digits,
  atoi-to_string_ℤ, to_string-ne-nil, all_digits-to_string,
}

above-pos : (n : ℕ) → 0 < n → above (pos n) 0 ≡ true
above-pos n h = ground arith

are_digits-to_string : (n : ℕ) → are_digits (to_string n) ≡ true
unfolding are_digits
are_digits-to_string n = not_empty (to_string n) (to_string-ne-nil n) (all_digits-to_string n)
  where
    not_empty :
        (s : Bytes) → s ≢ [] → all_digits s ≡ true → (not (is_empty s) && all_digits s) ≡ true
    not_empty [] ne h = absurd (ne refl)
    not_empty (c ∷ s) ne h = unfold is_empty in h

-- The decimal text of a positive number resolves to that number, whatever the apps are.
pub resolve_app_id-to_string :
    (apps : List AppInfo) (n : ℕ) → 0 < n → resolve_app_id apps (to_string n) ≡ pos n
unfolding resolve_app_id
resolve_app_id-to_string apps n h =
    let read : atoi (to_string n) ≡ pos n = unfold to_string_ℤ in atoi-to_string_ℤ (pos n) in
    rw (are_digits-to_string n, read, above-pos n h)

-- No app of the list has this title, up to case.
unfoldable pub is_unknown : Bytes → List AppInfo → Bool
is_unknown ref [] = true
is_unknown ref (a ∷ apps) = not (iequals a.title ref) && is_unknown ref apps

find_title_unknown :
    (apps : List AppInfo) (ref : Bytes)
    → are_listed apps ≡ true
    → (find_title apps ref ≡ pos 0) ↔ (is_unknown ref apps ≡ true)
unfolding find_title is_unknown are_listed is_listed
find_title_unknown [] ref h = (λ _. refl, λ _. refl)
find_title_unknown (a ∷ apps) ref h = elim (Bool-cases (iequals a.title ref)) [
  | inl e ↦ rw e (λ z. absurd (positive a.id z (ground arith)), λ f. cc)
  | inr e ↦ rw e (find_title_unknown apps ref (ground arith))
]
  where
    positive : (z : ℤ) → z ≡ pos 0 → above z 0 ≡ true → ⊥
    positive (pos n) e h = ground arith
    positive (negsuc n) e h = cc

-- In a list of apps as `parse_app_list` gives it, a reference that is no number resolves to 0
-- exactly when no title is equal to it up to case.
pub resolve_app_id-zero_iff :
    (apps : List AppInfo) (ref : Bytes)
    → are_listed apps ≡ true
    → are_digits ref ≡ false
    → (resolve_app_id apps ref ≡ pos 0) ↔ (is_unknown ref apps ≡ true)
unfolding resolve_app_id
resolve_app_id-zero_iff apps ref h k = rw k (find_title_unknown apps ref h)
