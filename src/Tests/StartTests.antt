-- ===== src/Tests/StartTests.antt =====
-- client.start of src/client/stream_main.cpp on a paired host, and the end of client mode.
use arcade_launcher_stream_e.Tests.ClientMethodTests.{world, info}
use arcade_launcher_stream_e.Sample.{small}
use arcade_launcher_stream_e.Net.Store.{find_host, read_hosts, find_in}
use arcade_launcher_stream_e.Json.{
  Value, obj, field, str, no_fields, get_str, find, find_field, str_or, get_num, get_bool, num_or,
  bool_or, is_object, is_null,
}
use arcade_launcher_stream_e.Client.World.{World, refuses, require, needed, ◌>>=◌, ◌>>◌}
use arcade_launcher_stream_e.Client.Session.Steps.{Answers}
use arcade_launcher_stream_e.Client.StreamConfig.{
  validate_stream_settings, check_settings, read_settings, int_or, outside, is_known_mode,
}
use arcade_launcher_stream_e.Client.Methods.{find_paired, connect_paired_host}
use arcade_launcher_stream_e.Client.Start.{client_start, checked_settings}
use arcade_launcher_stream_e.Client.Start.Started.{Started, Unharmed, client_start-refuses}
use arcade_launcher_stream_e.Ipc.Transport.{Transport}
use arcade_launcher_stream_e.Base.{
  codes, true, [], ◌∷◌, none, some, ◌≡◌, refl, bytes_eq, is_empty, pos,
}

abbrev paired_world : World
paired_world = record world {
  hosts_file = some (codes "[{\"address\":\"h\",\"serverCert\":\"A\"}]");
  network = record {
    answers =
        info
        ∷ info
        ∷ codes "<root status_code=\"200\"><sessionUrl0>rtsp://h</sessionUrl0></root>"
        ∷ [];
    randoms = codes "0123456789abcdef" ∷ (1 ∷ 2 ∷ 3 ∷ 4 ∷ []) ∷ [];
    requests = [];
  };
}

abbrev start_params : Value
start_params = obj (
    field (codes "app") (str (codes "7"))
      (field (codes "host") (str (codes "h")) (field (codes "settings") (obj no_fields) no_fields)))

-- The launcher asks for a host that is not paired.
not_paired :
    (client_start [] start_params world).0
    ≡ refuses (codes "not_paired") (codes "host 'h' is not paired; run client.pair first")
unfolding small client_start checked_settings validate_stream_settings check_settings read_settings
    int_or outside is_known_mode get_num get_bool num_or bool_or is_null is_object get_str str_or
    find find_field bytes_eq is_empty require ◌>>=◌ ◌>>◌ connect_paired_host find_paired find_host
    read_hosts find_in needed
not_paired = refl

client_start-refuses_example : Unharmed [] start_params world (client_start [] start_params world).1
client_start-refuses_example =
    client_start-refuses [] start_params world (codes "not_paired")
      (codes "host 'h' is not paired; run client.pair first") not_paired

abbrev answers : Answers
answers = record { handle = none; rc = pos 0; alive = true; now = 30 }

-- Nothing comes in over the socket.
abbrev silent : Transport
silent = record { incoming = []; outgoing = []; room = 100 }
