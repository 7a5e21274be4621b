-- ===== src/Net/AppList/Listed.antt =====
-- What is listed, and that the loop ends.
use arcade_launcher_stream_e.Base.Result.{Result, Ensures, Ensures-bind, holds}
use arcade_launcher_stream_e.Net.AppList.{
  find_app_body, AppInfo, keep_app, app_loop, parse_app_list, behind_tag, keep, over_found,
  read_app_info, app_body, over_body, ends_name,
}
use arcade_launcher_stream_e.Net.Xml.{split_at, split_before, in_front}
use arcade_launcher_stream_e.Base.{
  ℕ, zero, suc, ◌<◌, ◌≤◌, Bytes, codes, Bool, true, not, ◌&&◌, List, [], ◌∷◌, ◌==◌, Option, none,
  some, ◌≡◌, refl, inl, inr, arith, length, Bool-cases, is_empty, starts_with, above, drop,
  length-drop-le,
}

abbrev Shorter : ℕ → Option Bytes → Type 0
Shorter n none = Unit
Shorter n (some s) = length s < n

Shorter-suc : (n : ℕ) (o : Option Bytes) → Shorter n o → Shorter (suc n) o
Shorter-suc n none h = tt
Shorter-suc n (some s) h = omega arith

behind_tag-in_front :
    (c : ℕ) (o : Option (Bytes × Bytes)) → behind_tag (in_front c o) ≡ behind_tag o
behind_tag-in_front c none = refl
behind_tag-in_front c (some _) = refl

behind_tag-Shorter : (s : Bytes) → Shorter (length s) (behind_tag (split_at b'>' s))
unfolding split_at
behind_tag-Shorter [] = tt
behind_tag-Shorter (c ∷ s) =
    let later = Shorter-suc (length s) _ (behind_tag-Shorter s) in
    elim (Bool-cases (c == b'>')) [
      | inl e ↦ rw e (omega arith)
      | inr e ↦ rw (e, behind_tag-in_front c (split_at b'>' s)) later
    ]

app_body-Shorter :
    (t s : Bytes) (further : Option Bytes)
    → Shorter (length s) further
    → Shorter (length s) (app_body t s further)
app_body-Shorter [] s further h = tt
app_body-Shorter (c ∷ t) s further h = elim (Bool-cases (ends_name c)) [
  | inl e ↦ rw e (behind_tag-Shorter s)
  | inr e ↦ rw e h
]

find_app_body-Shorter : (s : Bytes) → Shorter (length s) (find_app_body s)
unfolding find_app_body
find_app_body-Shorter [] = tt
find_app_body-Shorter (c ∷ s) =
    let later = Shorter-suc (length s) _ (find_app_body-Shorter s) in
    elim (Bool-cases (starts_with (codes "<App") (c ∷ s))) [
      | inl e ↦ rw e (app_body-Shorter (drop 4 (c ∷ s)) (c ∷ s) (find_app_body s) later)
      | inr e ↦ rw e later
    ]

abbrev Within : ℕ → Option (Bytes × Bytes) → Type 0
Within n none = Unit
Within n (some (before, from)) = length from ≤ n

Within-in_front :
    (n c : ℕ) (o : Option (Bytes × Bytes)) → Within n o → Within (suc n) (in_front c o)
Within-in_front n c none h = tt
Within-in_front n c (some (before, from)) h = omega arith

split_before-Within : (p s : Bytes) → Within (length s) (split_before p s)
unfolding split_before
split_before-Within p [] = elim (Bool-cases (is_empty p)) [
  | inl e ↦ rw e (omega arith)
  | inr e ↦ rw e tt
]
split_before-Within p (c ∷ s) =
    let later = Within-in_front (length s) c _ (split_before-Within p s) in
    elim (Bool-cases (starts_with p (c ∷ s))) [ inl e ↦ rw e (omega arith) | inr e ↦ rw e later ]

unfoldable pub is_listed : AppInfo → Bool
is_listed a = above a.id 0 && not (is_empty a.title)

unfoldable pub are_listed : List AppInfo → Bool
are_listed [] = true
are_listed (a ∷ apps) = is_listed a && are_listed apps

are_listed-keep_app :
    (a : AppInfo) (apps : List AppInfo)
    → are_listed apps ≡ true
    → are_listed (keep_app a apps) ≡ true
unfolding are_listed is_listed keep_app
are_listed-keep_app a apps h = ground arith

abbrev pub Listed : List AppInfo → Type 0
Listed apps = are_listed apps ≡ true

keep-Ensures :
    (block : Bytes) (rest : Result (List AppInfo))
    → Ensures Listed rest
    → Ensures Listed (keep block rest)
keep-Ensures block rest h =
    Ensures-bind h λ apps k. holds (are_listed-keep_app (read_app_info block) apps k)

over_body-Ensures :
    (loop : Bytes → Result (List AppInfo)) (body : Bytes) (o : Option (Bytes × Bytes))
    → Within (length body) o
    → ((t : Bytes) → length t ≤ length body → Ensures Listed (loop t))
    → Ensures Listed (over_body loop body o)
unfolding over_body
over_body-Ensures loop body none h k = keep-Ensures body (loop []) (k [] (omega arith))
over_body-Ensures loop body (some (block, close)) h k =
    keep-Ensures block (loop (drop 6 close))
      (k (drop 6 close) (omega (arith, length-drop-le 6 close)))

over_found-Ensures :
    (loop : Bytes → Result (List AppInfo)) (n : ℕ) (o : Option Bytes)
    → Shorter n o
    → ((t : Bytes) → length t < n → Ensures Listed (loop t))
    → Ensures Listed (over_found loop o)
unfolding over_found are_listed
over_found-Ensures loop n none h k = holds refl
over_found-Ensures loop n (some body) h k =
    over_body-Ensures loop body (split_before (codes "</App>") body)
      (split_before-Within (codes "</App>") body) (λ t m. k t (omega arith))

app_loop-Ensures : (f : ℕ) (s : Bytes) → length s < f → Ensures Listed (app_loop f s)
unfolding app_loop
app_loop-Ensures zero s h = elim h [ ]
app_loop-Ensures (suc f) s h =
    over_found-Ensures (λ t. app_loop f t) (length s) (find_app_body s) (find_app_body-Shorter s)
      (λ t m. app_loop-Ensures f t (omega arith))

-- `parse_app_list` ends on every text, and every app that it lists has a positive id and a title.
pub parse_app_list-Ensures : (xml : Bytes) → Ensures Listed (parse_app_list xml)
unfolding parse_app_list
parse_app_list-Ensures xml = app_loop-Ensures (suc (length xml)) xml (omega arith)
