-- ===== src/Client/AudioRenderer/Samples.antt =====
-- The sizes of the buffers.
use native.Mathlib.Nat.{mul-le-mul_right, pow-succ', mul_assoc}
use arcade_launcher_stream_e.Client.AudioRenderer.{
  buffer_loop, to_u16, Audio, decode_and_play, init, InitAnswers, init_device, OpusConfig,
  new_audio,
}
use arcade_launcher_stream_e.Base.{
  ℕ, zero, suc, ◌+◌, ◌*◌, ◌^◌, ◌<◌, ◌≤◌, Bool, true, false, not, ◌||◌, List, [], ◌∷◌, ◌++◌, ltb,
  ◌==◌, if◌then◌else◌, Option, none, some, ◌≡◌, ◌⊎◌, refl, sym, ap, ◌∙◌, inl, inr, arith,
  Bool-cases, ℤ, ltb→lt, magnitude, below, subst,
}

-- With enough rounds the loop ends: its result is enough, and it is where the loop began or less than
-- twice what is needed.
Enough : ℕ → ℕ → Option ℕ → Type 0
Enough samples buf r = (b : ℕ) × (r ≡ some b) × (samples ≤ b) × ((b ≡ buf) ⊎ (b < 2 * samples))

further :
    (samples buf : ℕ) (r : Option ℕ)
    → ltb buf samples ≡ true
    → Enough samples (buf * 2) r
    → Enough samples buf r
unfolding Enough
further samples buf r more (b, e, enough, inl same) =
    (b, e, enough, inr (omega (arith, ltb→lt buf samples more, same)))
further samples buf r more (b, e, enough, inr less) = (b, e, enough, inr less)

doubled : (f buf : ℕ) → buf * 2 ^ suc f ≡ buf * 2 * 2 ^ f
doubled f buf = ap (λ n. buf * n) (pow-succ' 2 f) ∙ sym (mul_assoc buf 2 (2 ^ f))

buffer_loop-Enough :
    (f samples buf : ℕ)
    → samples ≤ buf * 2 ^ f
    → Enough samples buf (buffer_loop (suc f) samples buf)
unfolding buffer_loop Enough
buffer_loop-Enough zero samples buf h = elim (Bool-cases (ltb buf samples)) [
  | inr enough ↦ (buf, rw enough refl, ground arith, inl refl)
  | inl more ↦ absurd (omega (arith, ltb→lt buf samples more))
]
buffer_loop-Enough (suc f) samples buf h = elim (Bool-cases (ltb buf samples)) [
  | inr enough ↦ (buf, rw enough refl, ground arith, inl refl)
  | inl more ↦ rw more (
      unfold Enough in
      further samples buf (buffer_loop (suc f) samples (buf * 2)) more
        (buffer_loop-Enough f samples (buf * 2) (subst (λ n. samples ≤ n) (doubled f buf) h)))
]

-- The loop over the size of the device's buffer ends within six rounds for up to 32768 samples in a
-- frame: the size is enough, and the cast to 16 bits keeps it.
pub buffer_loop-fits :
    (samples : ℕ)
    → samples ≤ 2 ^ 15
    → (b : ℕ) × (buffer_loop 6 samples 1024 ≡ some b) × (samples ≤ b) × (to_u16 b ≡ b)
unfolding Enough
buffer_loop-fits samples h = from (buffer_loop-Enough 5 samples 1024 (omega arith))
  where
    from :
        (b : ℕ) × (buffer_loop 6 samples 1024 ≡ some b)
          × (samples ≤ b)
          × ((b ≡ 1024) ⊎ (b < 2 * samples))
        → (b : ℕ) × (buffer_loop 6 samples 1024 ≡ some b) × (samples ≤ b) × (to_u16 b ≡ b)
    from (b, e, enough, inl same) = (b, e, enough, omega (arith, same))
    from (b, e, enough, inr less) = (b, e, enough, omega (arith, less, h))

-- Everything that was queued lies in the buffer, which has two bytes for each element: `room` is the
-- size of the buffer for the frames of this stream.
abbrev pub AreWithin : ℕ → List ℕ → Type 0
AreWithin room [] = Unit
AreWithin room (n ∷ ns) = (n ≤ room) × AreWithin room ns

AreWithin-append :
    (room n : ℕ) (ns : List ℕ) → AreWithin room ns → n ≤ room → AreWithin room (ns ++ (n ∷ []))
AreWithin-append room n [] a h = (h, tt)
AreWithin-append room n (m ∷ ns) a h = (a.0, AreWithin-append room n ns a.1 h)

-- A buffer that was made has an element for each sample of a frame.
abbrev IsSized : Audio → Type 0
IsSized s =
    ((s.pcm ≡ 0) ⊎ (s.pcm ≡ s.samples_per_frame * s.channel_count)) × AreWithin (2 * s.pcm) s.queued

decode_and_play-cases :
    (decoded : ℤ) (queues : Bool) (s : Audio)
    → (decode_and_play decoded queues s ≡ s)
      ⊎ (((s.pcm == 0) ≡ false)
          × (decode_and_play decoded queues s ≡ record s {
            queued = s.queued ++ ((magnitude decoded * s.channel_count * 2) ∷ []);
            frames_played = (if queues then s.frames_played + 1 else s.frames_played);
          }))
unfolding decode_and_play
decode_and_play-cases decoded queues s =
    elim (Bool-cases (not s.has_decoder || not s.has_device || s.pcm == 0)) [
      | inl e ↦ inl (ground arith)
      | inr e ↦ elim (Bool-cases (below decoded 1)) [
        | inl l ↦ inl (ground arith)
        | inr l ↦ inr (ground arith, ground arith)
      ]
    ]

decode_and_play-IsSized :
    (decoded : ℤ) (queues : Bool) (s : Audio)
    → magnitude decoded ≤ s.samples_per_frame
    → IsSized s
    → IsSized (decode_and_play decoded queues s)
decode_and_play-IsSized decoded queues s h (size, within) =
    elim (decode_and_play-cases decoded queues s) [
      | inl e ↦ subst IsSized (sym e) (size, within)
      | inr (some_room, e) ↦ subst IsSized (sym e) (size, more size some_room)
    ]
  where
    more :
        (s.pcm ≡ 0) ⊎ (s.pcm ≡ s.samples_per_frame * s.channel_count)
        → (s.pcm == 0) ≡ false
        → AreWithin (2 * s.pcm) (s.queued ++ ((magnitude decoded * s.channel_count * 2) ∷ []))
    more (inl no_room) some_room = absurd (ground arith)
    more (inr whole) some_room =
        AreWithin-append (2 * s.pcm) (magnitude decoded * s.channel_count * 2) s.queued within
          (grind (arith, whole, mul-le-mul_right s.channel_count h))

init-IsSized : (a : InitAnswers) (config : Option OpusConfig) → IsSized (init a config new_audio).1
unfolding init init_device
init-IsSized a none = (inl refl, tt)
init-IsSized a (some config) = elim (Bool-cases a.creates_decoder) [
  | inr e ↦ rw e (inl refl, tt)
  | inl e ↦ elim (Bool-cases a.inits_audio) [
    | inr i ↦ rw (e, i) (inl refl, tt)
    | inl i ↦ elim (Bool-cases a.opens_device) [
      | inr o ↦ rw (e, i, o) (inl refl, tt)
      | inl o ↦ rw (e, i, o) (inr refl, tt)
    ]
  ]
]

-- The life of a renderer: `init` once, and packets, for each of which Opus gives at most as many
-- samples for a channel as it was asked for.
pub data Life : Audio → Type 0 where
  begins :
      (a : InitAnswers) (config : Option OpusConfig) {s : Audio}
      → s ≡ (init a config new_audio).1
      → Life s
  plays :
      (decoded : ℤ) (queues : Bool) {s t : Audio}
      → Life s
      → magnitude decoded ≤ s.samples_per_frame
      → t ≡ decode_and_play decoded queues s
      → Life t

-- In the life of a renderer, nothing that is queued reaches beyond the buffer of samples, which has two
-- bytes for each element.
pub Life-AreWithin : {s : Audio} → Life s → AreWithin (2 * s.pcm) s.queued
Life-AreWithin l = (from l).1
  where
    from : {s : Audio} → Life s → IsSized s
    from (begins a config e) = subst IsSized (sym e) (init-IsSized a config)
    from (plays decoded queues {s} {t} l h e) =
        subst IsSized (sym e) (decode_and_play-IsSized decoded queues s h (from l))
