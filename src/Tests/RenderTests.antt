-- ===== src/Tests/RenderTests.antt =====
-- The renderers and the window of src/client, and src/net/http_client.cpp, on short lives.
use arcade_launcher_stream_e.Client.VideoRenderer.{
  Formats, Frame, Renderer, new_renderer, hand_over, count_frame,
}
use arcade_launcher_stream_e.Client.AudioRenderer.{
  OpusConfig, Audio, InitAnswers, new_audio, init, init_device, decode_and_play,
}
use arcade_launcher_stream_e.Client.AudioRenderer.Samples.{Life, AreWithin, Life-AreWithin}
use arcade_launcher_stream_e.Client.StreamWindow.{
  CreateAnswers, SdlEvent, new_window, create, handle_events, destroy,
}
use arcade_launcher_stream_e.Client.StreamWindow.Pads.{handles_of, destroy_tidy}
use arcade_launcher_stream_e.Net.HttpClient.{
  HttpClient, Exchange, request, new_client, with_pinned_cert, tls_ok, exchange, is_open,
  tcp_connect, first_socket, request_text, read_pem_cert, same_cert, send_all, recv_all,
}
use arcade_launcher_stream_e.Net.HttpClient.Pinned.{Pinned, request-Pinned}
use arcade_launcher_stream_e.Base.Result.{ok}
use arcade_launcher_stream_e.Net.Http.{build_request_target}
use arcade_launcher_stream_e.Base.{
  ℕ, codes, true, false, List, [], ◌∷◌, none, some, ◌≡◌, ◌≢◌, refl, arith, bytes_eq, is_empty, pos,
  count, ◌*◌, sym, ap, ◌∙◌,
}

abbrev formats : Formats
formats = record { hardware = 0; nv12 = 1; yuv420p = 2; sdl_nv12 = 3; sdl_iyuv = 4 }

abbrev frame : Frame
frame = record { pointer = 70; format = 1; width = 2; height = 2 }

abbrev decoded : Renderer
decoded = count_frame (hand_over frame new_renderer)

abbrev all_fine : InitAnswers
all_fine = record { creates_decoder = true; inits_audio = true; opens_device = true }

abbrev stereo : OpusConfig
stereo = record { channel_count = 2; samples_per_frame = 240 }

abbrev ready : Audio
ready = (init all_fine (some stereo) new_audio).1

played : Life (decode_and_play (pos 240) true ready)
unfolding init init_device
played = Life.plays (pos 240) true (Life.begins all_fine (some stereo) refl) (omega arith) refl

Life-AreWithin_example :
    AreWithin
      (2 * (decode_and_play (pos 240) true ready).pcm)
      (decode_and_play (pos 240) true ready).queued
Life-AreWithin_example = Life-AreWithin played

abbrev window_made : CreateAnswers
window_made = record {
  inits = true;
  creates_window = true;
  creates_accelerated = false;
  creates_software = true;
  native = some 42;
  sdl_error = [];
}

-- Two controllers come, and one goes.
abbrev plugged : List SdlEvent
plugged =
    SdlEvent.device_added (pos 0) (some (record { handle = 11; instance_id = 1 }))
    ∷ SdlEvent.device_added (pos 1) (some (record { handle = 12; instance_id = 2 }))
    ∷ SdlEvent.device_removed 1
    ∷ []

destroy_tidy_example :
    ((k : ℕ)
      → count k (destroy (handle_events plugged (create window_made new_window).1)).opened
        ≡ count k (destroy (handle_events plugged (create window_made new_window).1)).closed)
    × (handles_of (destroy (handle_events plugged (create window_made new_window).1)).pads ≡ [])
    × ((destroy (handle_events plugged (create window_made new_window).1)).has_window ≡ false)
    × ((destroy (handle_events plugged (create window_made new_window).1)).has_renderer ≡ false)
    × ((destroy (handle_events plugged (create window_made new_window).1)).sdl_inited ≡ false)
destroy_tidy_example = destroy_tidy window_made plugged

abbrev client : HttpClient
client = with_pinned_cert (codes "A") (
    new_client (codes "h") (pos 47989) (pos 47984)
      (record { cert_pem = codes "C"; key_pem = codes "K" }) (codes "u"))

abbrev made : Exchange
made = record {
  random = none;
  resolves = true;
  attempts = (true, false) ∷ (true, true) ∷ [];
  has_context = true;
  has_ssl = true;
  shakes_hands = true;
  peer_cert = some (codes "A");
  sends = pos 100 ∷ pos 100 ∷ pos 100 ∷ [];
  receives = codes "HTTP/1.1 200 OK\r\n\r\n<root/>" ∷ [];
}

request_text_sent :
    is_empty (request (λ pem. some pem) 9 true client (pos 47984) (codes "applist") [] made).0
    ≡ false
unfolding request exchange is_open tls_ok same_cert read_pem_cert bytes_eq is_empty tcp_connect
    first_socket request_text send_all recv_all new_client build_request_target
request_text_sent = refl

request_sent :
    request (λ pem. some pem) 9 true client (pos 47984) (codes "applist") [] made ≢ ([], ok [])
unfolding is_empty
request_sent e = not_empty (sym (ap (λ r. is_empty r.0) e) ∙ request_text_sent)
  where
    not_empty : true ≢ false
    not_empty h = cc

request-Pinned_example : Pinned (λ pem. some pem) client made
request-Pinned_example =
    request-Pinned (λ pem. some pem) client made 9 (pos 47984) (codes "applist") [] request_sent
