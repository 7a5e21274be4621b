-- ===== src/Json/Text/Consumes.antt =====
-- Every round of `str` reads a byte, so the fuel of its loop is never used up.
use arcade_launcher_stream_e.Base.{
  ℕ, zero, suc, ◌+◌, ◌*◌, ◌<◌, ◌≤◌, Bytes, ◌&&◌, [], ◌∷◌, ◌++◌, leb, ◌==◌, if◌then◌else◌, Option,
  none, some, inl, inr, arith, length, Bool-cases, Option-cases, hex_value,
}
use arcade_launcher_stream_e.Base.Result.{
  Ensures, holds, rejected, ok, Ensures-if, failed, Ensures-mono,
}
use arcade_launcher_stream_e.Json.Text.{
  Round, stop, append, bad, str_loop, parse_str, Bytes, hex_loop, low_surrogate, unicode_escape,
  escape_round, str_round, ℕ, length, Option, hex4, ◌∷◌, encode_utf8,
}

-- What is left after a round is shorter than its input.
abbrev Shrinks : Bytes → Round → Type 0
Shrinks s (stop rest) = length rest < length s
Shrinks s (append bs rest) = length rest < length s
Shrinks s bad = Unit

abbrev LeavesLess : Bytes → Option (ℕ × Bytes) → Type 0
LeavesLess s none = Unit
LeavesLess s (some (v, rest)) = length rest ≤ length s

LeavesLess-mono :
    (c : ℕ) (s : Bytes) (r : Option (ℕ × Bytes)) → LeavesLess s r → LeavesLess (c ∷ s) r
LeavesLess-mono c s none h = tt
LeavesLess-mono c s (some (v, rest)) h = omega arith

hex_loop-LeavesLess : (n v : ℕ) (s : Bytes) → LeavesLess s (hex_loop n v s)
unfolding hex_loop
hex_loop-LeavesLess zero v s = omega arith
hex_loop-LeavesLess (suc n) v [] = tt
hex_loop-LeavesLess (suc n) v (c ∷ s) = elim (Option-cases (hex_value c)) [
  | inl e ↦ rw (e, hex_loop) tt
  | inr (d, e) ↦ rw (e, hex_loop) (LeavesLess-mono c s _ (hex_loop-LeavesLess n (v * 16 + d) s))
]

low_surrogate-Shrinks : (hi : ℕ) (s : Bytes) → Shrinks (b'u' ∷ s) (low_surrogate hi s)
unfolding low_surrogate hex4
low_surrogate-Shrinks hi [] = tt
low_surrogate-Shrinks hi (b ∷ []) = tt
low_surrogate-Shrinks hi (b ∷ u ∷ s) = ground (arith, hex_loop-LeavesLess 4 0 s)

Shrinks-mono : (s t : Bytes) (r : Round) → length s ≤ length t → Shrinks s r → Shrinks t r
Shrinks-mono s t (stop rest) h k = omega arith
Shrinks-mono s t (append bs rest) h k = omega arith
Shrinks-mono s t bad h k = tt

unicode_escape_step :
    (cp : ℕ) (s rest : Bytes)
    → length rest ≤ length s
    → Shrinks (b'u' ∷ s) (
        if leb 0xd800 cp && leb cp 0xdbff
        then low_surrogate cp rest
        else append (encode_utf8 cp) rest)
unicode_escape_step cp s rest h = elim (Bool-cases (leb 0xd800 cp && leb cp 0xdbff)) [
  | inl e ↦
      rw e (Shrinks-mono (b'u' ∷ rest) (b'u' ∷ s) _ (omega arith) (low_surrogate-Shrinks cp rest))
  | inr e ↦ rw e (omega arith)
]

unicode_escape-Shrinks : (s : Bytes) → Shrinks (b'u' ∷ s) (unicode_escape s)
unfolding unicode_escape hex4
unicode_escape-Shrinks s = elim (Option-cases (hex_loop 4 0 s)) [
  | inl e ↦ rw (e, unicode_escape) tt
  | inr ((cp, rest), e) ↦
      rw (e, unicode_escape) (unicode_escape_step cp s rest (rw e at (hex_loop-LeavesLess 4 0 s)))
]

escape_round-Shrinks : (s : Bytes) → Shrinks (b'\\' ∷ s) (escape_round s)
unfolding escape_round
escape_round-Shrinks [] = tt
escape_round-Shrinks (e ∷ s) = ground (arith, unicode_escape-Shrinks s)

str_round-Shrinks : (s : Bytes) → Shrinks s (str_round s)
unfolding str_round
str_round-Shrinks [] = tt
str_round-Shrinks (c ∷ s) = ground (arith, escape_round-Shrinks s)

str_loop_round :
    (f : ℕ) (out s : Bytes) (r : Round)
    → Shrinks s r
    → ((bs rest : Bytes)
        → length rest < length s
        → Ensures (λ q. length q.1 < length rest) (str_loop f (out ++ bs) rest))
    → Ensures {A = Bytes × Bytes}
        (λ q. length q.1 < length s)
        (elim r [
          | stop rest ↦ ok (out, rest)
          | append bs rest ↦ str_loop f (out ++ bs) rest
          | bad ↦ failed
        ])
str_loop_round f out s (stop rest) h k = holds h
str_loop_round f out s (append bs rest) h k = Ensures-mono (λ q m. omega arith) (k bs rest h)
str_loop_round f out s bad h k = rejected

str_loop-Ensures :
    (f : ℕ) (out s : Bytes) → length s < f → Ensures (λ r. length r.1 < length s) (str_loop f out s)
unfolding str_loop
str_loop-Ensures zero out s h = elim h [ ]
str_loop-Ensures (suc f) out s h =
    str_loop_round f out s (str_round s) (str_round-Shrinks s)
      (λ bs rest k. str_loop-Ensures f (out ++ bs) rest (omega arith))

pub parse_str-Ensures : (s : Bytes) → Ensures (λ r. length r.1 < length s) (parse_str s)
unfolding parse_str
parse_str-Ensures [] = rejected
parse_str-Ensures (c ∷ s) =
    Ensures-if (c == b'"')
      (λ e.
        Ensures-mono (λ q m. omega arith) (str_loop-Ensures (suc (length s)) [] s (omega arith)))
      (λ e. rejected)
