-- ===== src/Net/Http/Sizes.antt =====
-- The size in the line of a chunk, src/net/http_client.cpp, is its hexadecimal number.
use arcade_launcher_stream_e.Net.Identity.UniqueId.{hex_number, on_digit}
use arcade_launcher_stream_e.Net.Http.{chunk_size, size_limit}
use arcade_launcher_stream_e.Base.{
  ℕ, ◌+◌, ◌%◌, ◌<◌, ◌≤◌, Bytes, false, [], ◌∷◌, ◌==◌, Option, none, some, ◌≡◌, refl, ◌∙◌, arith,
  hex_value, ◌*◌, sym,
}

-- The hexadecimal digits that a text starts with
unfoldable pub hex_prefix : Bytes → Bytes
hex_prefix [] = []
hex_prefix (c ∷ s) = elim (hex_value c) [ none ↦ [] | some _ ↦ c ∷ hex_prefix s ]

pub mod_small : (n : ℕ) → n < size_limit → n % size_limit ≡ n
mod_small n h = omega arith

hex_number_le : (s : Bytes) (n k : ℕ) → hex_number n s ≡ some k → n ≤ k
unfolding hex_number
hex_number_le [] n k h = ground arith
hex_number_le (c ∷ s) n k h = of_digit (hex_value c) (λ m e. hex_number_le s m k e) h
  where
    of_digit :
        (o : Option ℕ)
        → ((m : ℕ) → hex_number m s ≡ some k → m ≤ k)
        → on_digit o (λ d. hex_number (n * 16 + d) s) ≡ some k
        → n ≤ k
    of_digit none ih e = absurd (cc e)
    of_digit (some d) ih e = let le = ih (n * 16 + d) e in omega arith

pub chunk_size-hex_prefix :
    (s : Bytes) (n k : ℕ)
    → hex_number n (hex_prefix s) ≡ some k
    → k < size_limit
    → chunk_size (some n) s ≡ some k
unfolding chunk_size hex_prefix
chunk_size-hex_prefix [] n k h m = unfold hex_number in h
chunk_size-hex_prefix (c ∷ s) n k h m =
    of_digit (hex_value c) (λ i e. chunk_size-hex_prefix s i k e m) refl h
  where
    of_digit :
        (o : Option ℕ)
        → ((i : ℕ) → hex_number i (hex_prefix s) ≡ some k → chunk_size (some i) s ≡ some k)
        → hex_value c ≡ o
        → hex_number n (elim o [ none ↦ [] | some _ ↦ c ∷ hex_prefix s ]) ≡ some k
        → elim o [ none ↦ some n | some v ↦ chunk_size (some ((n * 16 + v) % size_limit)) s ]
          ≡ some k
    of_digit none ih e g = unfold hex_number in g
    of_digit (some v) ih e g =
        let step : hex_number n (c ∷ hex_prefix s) ≡ hex_number (n * 16 + v) (hex_prefix s) =
          unfold hex_number in rw e refl in
        let next = sym step ∙ g in
        let small =
          mod_small (n * 16 + v)
            (omega (arith, hex_number_le (hex_prefix s) (n * 16 + v) k next)) in
        rw small (ih (n * 16 + v) next)

-- A line that starts with a digit
pub chunk_size-none :
    (s : Bytes) (k : ℕ)
    → chunk_size (some 0) s ≡ some k
    → (k == 0) ≡ false
    → chunk_size none s ≡ some k
unfolding chunk_size
chunk_size-none [] k h e = ground arith
chunk_size-none (c ∷ s) k h e = of_digit (hex_value c) h
  where
    of_digit :
        (o : Option ℕ)
        → elim o [ none ↦ some 0 | some v ↦ chunk_size (some ((0 * 16 + v) % size_limit)) s ]
          ≡ some k
        → elim o [ none ↦ none | some v ↦ chunk_size (some ((0 * 16 + v) % size_limit)) s ] ≡ some k
    of_digit none g = ground arith
    of_digit (some v) g = g
