-- ===== src/Client/AudioRenderer.antt =====
-- `AudioRenderer` of src/client/audio_renderer.cpp. What Opus and SDL answer is an argument; a decoded
-- sample is not modelled, but how many there are. The counter is a number without the limit of
-- `uint64_t`.
use arcade_launcher_stream_e.Base.{
  ℕ, zero, suc, ◌+◌, ◌*◌, ◌%◌, ◌^◌, Bool, true, false, not, ◌||◌, List, [], ◌∷◌, ◌++◌, ltb, ◌==◌,
  if◌then◌else◌, Option, none, some, ℤ, magnitude, below,
}
pub mod Samples

-- The configuration of the stream, as far as it is kept
pub record OpusConfig : Type 0 where
  pub channel_count : ℕ
  pub samples_per_frame : ℕ

-- The members; `pcm` is the number of elements in the buffer, and `queued` are the sizes in bytes of
-- what was queued.
pub record Audio : Type 0 where
  pub has_decoder : Bool
  pub has_device : Bool
  pub channel_count : ℕ
  pub samples_per_frame : ℕ
  pub sdl_inited : Bool
  pub pcm : ℕ
  pub frames_played : ℕ
  pub queued : List ℕ

abbrev pub new_audio : Audio
new_audio = record {
  has_decoder = false;
  has_device = false;
  channel_count = 0;
  samples_per_frame = 0;
  sdl_inited = false;
  pcm = 0;
  frames_played = 0;
  queued = [];
}

-- The loop `while (bufSamples < samplesPerFrame_) bufSamples <<= 1`, with fuel for its rounds
unfoldable pub buffer_loop : ℕ → ℕ → ℕ → Option ℕ
buffer_loop zero samples buf = none
buffer_loop (suc f) samples buf =
    let rest = buffer_loop f samples (buf * 2) in if ltb buf samples then rest else some buf

abbrev pub to_u16 : ℕ → ℕ
to_u16 n = n % 2 ^ 16

-- What the calls of `init` answer.
pub record InitAnswers : Type 0 where
  pub creates_decoder : Bool
  pub inits_audio : Bool
  pub opens_device : Bool

-- `init` behind the decoder, with the result 0 as `true`; the size of the device's buffer does not
-- change what is kept.
unfoldable pub init_device : InitAnswers → Audio → Bool × Audio
init_device a s =
    if not a.inits_audio
    then (false, s)
    else if not a.opens_device
    then (false, record s { sdl_inited = true; has_device = false })
    else (
      true,
      record s {
        sdl_inited = true;
        has_device = true;
        pcm = s.samples_per_frame * s.channel_count;
      },
    )

unfoldable pub init : InitAnswers → Option OpusConfig → Audio → Bool × Audio
unfolding init_device
init a none s = (false, s)
init a (some config) s =
    let s' = record s {
      channel_count = config.channel_count;
      samples_per_frame = config.samples_per_frame;
      has_decoder = a.creates_decoder;
    } in
    if not a.creates_decoder then (false, s') else init_device a s'

-- `decode_and_play`; `decoded` is what Opus answers, and `queues` whether SDL takes the samples.
unfoldable pub decode_and_play : ℤ → Bool → Audio → Audio
decode_and_play decoded queues s =
    let bytes = magnitude decoded * s.channel_count * 2 in
    if not s.has_decoder || not s.has_device || s.pcm == 0
    then s
    else if below decoded 1
    then s
    else record s {
      queued = s.queued ++ (bytes ∷ []);
      frames_played = (if queues then s.frames_played + 1 else s.frames_played);
    }

unfoldable pub close_audio : Audio → Audio
close_audio s = record s { has_device = false; has_decoder = false; sdl_inited = false }
