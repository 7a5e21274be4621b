-- ===== src/Net/HttpClient/Wire.antt =====
-- What goes out of a socket.
use arcade_launcher_stream_e.Net.HttpClient.{send_all, nothing}
use arcade_launcher_stream_e.Base.{
  Bytes, true, List, [], ◌∷◌, ◌++◌, ◌≡◌, ◌↔◌, refl, sym, ap, ◌∙◌, inl, inr, append_assoc,
  Bool-cases, ℤ, drop, magnitude, take-append-drop, take,
}

-- Whatever the calls answer, what `send_all` puts out is the front of the text, and it says that all
-- was sent exactly when nothing of the text is left.
pub send_all-front :
    (answers : List ℤ) (text : Bytes)
    → (left : Bytes) × (text ≡ (send_all answers text).1 ++ left)
      × (((send_all answers text).0 ≡ true) ↔ (left ≡ []))
unfolding send_all
send_all-front answers [] = ([], refl, (λ h. refl, λ h. refl))
send_all-front [] (c ∷ s) = (c ∷ s, refl, (λ h. cc, λ h. cc))
send_all-front (n ∷ answers) (c ∷ s) = elim (Bool-cases (nothing n)) [
  | inl q ↦ (c ∷ s, rw q refl, (λ h. absurd (cc (rw q at h)), λ h. absurd (cc h)))
  | inr q ↦
      let (left, whole, done) = send_all-front answers (drop (magnitude n) (c ∷ s)) in
      (
        left,
        rw q (
            sym (take-append-drop (magnitude n) (c ∷ s))
            ∙ (ap (λ r. take (magnitude n) (c ∷ s) ++ r) whole
                ∙ sym (
                    append_assoc (take (magnitude n) (c ∷ s))
                      (send_all answers (drop (magnitude n) (c ∷ s))).1 left))),
        rw q done,
      )
]
