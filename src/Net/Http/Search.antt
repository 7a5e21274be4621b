-- ===== src/Net/Http/Search.antt =====
-- The first occurrence of a pattern in a text.
use arcade_launcher_stream_e.Net.Xml.{split_before}
use arcade_launcher_stream_e.Base.{
  ℕ, ◌≤◌, Bytes, true, false, [], ◌∷◌, ◌++◌, some, ◌≡◌, refl, ◌∙◌, arith, length, length-append,
  append_assoc, starts_with, contains,
}

starts_with-append :
    (p s rest : Bytes) → length p ≤ length s → starts_with p (s ++ rest) ≡ starts_with p s
unfolding starts_with
starts_with-append [] s rest h = refl
starts_with-append (a ∷ p) [] rest h = absurd (omega arith)
starts_with-append (a ∷ p) (c ∷ s) rest h = rw (starts_with-append p s rest (omega arith))

starts_with_self : (p s : Bytes) → starts_with p (p ++ s) ≡ true
unfolding starts_with
starts_with_self [] s = refl
starts_with_self (c ∷ p) s = ground (arith, starts_with_self p s)

not_contained :
    (p : Bytes) (c : ℕ) (s : Bytes)
    → contains p (c ∷ s) ≡ false
    → (starts_with p (c ∷ s) ≡ false) × (contains p s ≡ false)
unfolding contains
not_contained p c s h = ground arith

-- The pattern `q ++ z` is first found behind `s`, if it is nowhere in `s` and the bytes `q`.
pub split_before-append :
    (q s rest : Bytes) (z : ℕ)
    → contains (q ++ (z ∷ [])) (s ++ q) ≡ false
    → split_before (q ++ (z ∷ [])) (s ++ ((q ++ (z ∷ [])) ++ rest))
      ≡ some (s, (q ++ (z ∷ [])) ++ rest)
unfolding split_before
split_before-append [] [] rest z h = rw (starts_with_self (z ∷ []) rest)
split_before-append (c ∷ q) [] rest z h = rw (starts_with_self ((c ∷ q) ++ (z ∷ [])) rest)
split_before-append q (c ∷ s) rest z h =
    let p = q ++ (z ∷ []) in
    let absent = not_contained p c (s ++ q) h in
    let long : length p ≤ length (c ∷ (s ++ q)) =
      omega (arith, length-append q (z ∷ []), length-append s q) in
    let whole : s ++ ((q ++ (z ∷ [])) ++ rest) ≡ (s ++ q) ++ (z ∷ rest) = simp append_assoc refl in
    let here : starts_with p (c ∷ (s ++ (p ++ rest))) ≡ false =
      rw whole (starts_with-append p (c ∷ (s ++ q)) (z ∷ rest) long ∙ absent.0) in
    rw (here, split_before-append q s rest z absent.1)
