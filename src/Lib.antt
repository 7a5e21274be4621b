-- ===== src/Lib.antt =====
-- ArcadeLauncher Stream Engine: the engine that serves and plays GameStream sessions for the
-- launcher. It has two modes. Both speak to the launcher over a local socket: frames of JSON text,
-- a handshake, then requests that are answered one by one. As a client the engine pairs with hosts
-- over the GameStream protocol, whose answers are XML; as a host it keeps the catalog of apps and
-- the trusted clients in JSON files of Sunshine.
--
-- Parts, files and code:
-- * Json, for src/ipc/json.h and json.cpp. A value is a data type with the cases of `Value::Type`, a
--   std::map is its entries in key order, a double its 64-bit pattern. Json/Dump prints, Json/Text
--   and Json/Parser read; the position in the text is the text that is left, and `ok == false` is
--   the outcome `failed`. Json/Floats names what is taken from the C++ implementation on doubles:
--   the operations are the parameter `Floats`, their documented behaviour is the record `Ieee`.
-- * Ipc/Transport, for src/ipc/transport.h and the socket of transport_posix.cpp: what the peer
--   sends before it closes, what was sent to it, and how much it still takes. Ipc/Socket has the
--   loops of the socket over the answers of the system, Ipc/Connect the way to it.
-- * Ipc/Frame, for src/ipc/frame.cpp; Ipc/Server, for src/ipc/server.cpp. Handlers are functions of
--   a state of the program's choice. Ipc/Server/Writers has the lock that keeps the frames of two
--   threads apart; elsewhere a frame is written in one step.
-- * Client/StreamConfig, for src/client/stream_config.cpp.
-- * Host/ClientTrust, for src/host/client_trust.cpp; Host/HostApps, for src/host/host_apps.cpp. The
--   files they are kept in are texts here; Host/HostApps/Location says where they are.
-- * Host/Backend, for the POSIX side of src/host/sunshine_backend.cpp: the system calls answer from
--   lists that are given in advance, and a state is reached by any operations in any order;
--   Host/Backend/Setup has its constructor.
-- * Host/Methods, for the handlers of src/host/host_main.cpp, whose state is the backend with its
--   system and the texts of three files.
-- * Net/Hex and Net/Xml, for src/net/gamestream_xml.cpp; Net/Http, for the texts of
--   src/net/http_client.cpp, and Net/HttpClient, for its requests: what the sockets and TLS answer is
--   an `Exchange`. Net/AppList, for src/net/nv_applist.cpp; Net/Launch, for src/net/nv_launch.cpp;
--   Net/Store and Net/Identity, for the paired hosts and the client's own identity in
--   src/net/identity_store.cpp, with the id of src/net/identity.cpp. Net/Network, for the calls of
--   these parts through a live client: the texts that the requests return are given in advance, and
--   every request is noted with its channel and the certificate that was pinned for it.
-- * Client/World, for what the handlers of client mode work on, and the steps they are made of;
--   Client/Methods and Client/Start, for the handlers in src/client/stream_main.cpp;
--   Client/StreamMain, for its main function and its events.
-- * Client/Session, for src/client/stream_session.cpp: `start`, `stop`, the places of the worker in
--   `run`, and the callbacks. Client/Session/Steps has the step relation, with the threads in any
--   interleaving; Client/Session/Configuration what the library is given.
-- * Client/VideoRenderer, Client/AudioRenderer and Client/StreamWindow, for the files of these names
--   in src/client. Two threads work on the video renderer; its critical sections are single
--   steps, and `present` holds a frame in between.
-- * Main, for src/main.cpp, src/ipc/ipc.cpp and the main function of src/host/host_main.cpp.
-- * Net/PairingCrypto, for src/net/pairing_crypto.cpp, with OpenSSL as a parameter; Net/Pairing, for
--   src/net/nv_pairing.cpp: the flow is the tree of its calls, and a run is the list of its events.
-- * Base has the shared names and lemmas, Sample a small instance of the doubles for the tests, and
--   Tests the concrete runs.
--
-- Fuel: the parser has three units for each byte of the text and three more, its loop over a string
-- one for each byte; both are enough for every text. The loop of the server ends on any fuel above
-- the number of bytes that come in. The list of apps has one unit for each byte of the document and
-- one more. The loop of `dechunk` has a unit for each round; its positions wrap at 2^64 as a size_t
-- does, and no fuel is enough for every body. Integers of type int are signed integers without
-- bound where the code only compares or prints them; the counts of `diff_apps` are natural numbers.
--
-- Where an `int` is read by std::atoi, the number is taken to fit one: others are undefined in C++.
-- The parser calls itself for each level of an array or an object without a limit of depth; the
-- stack of the program is not modelled. A write of a file of the store is all or nothing: the
-- fallback of `write_file` that removes the file when a rename fails is not modelled. Where
-- client.start ends the program by std::terminate, the mark `ended` of the world is set, and
-- `stream_main` of the model ends with `aborts`; what is computed behind that is not part of the run.
-- A `waitpid` may fail: the child is then let go of without having been waited for.
--
-- A stop of the stream is six steps of the worker at most.
--
-- Not modelled: the system calls of the sockets, files and processes; what OpenSSL, SDL, FFmpeg,
-- Opus and the streaming library compute, and when they block; the builds without OpenSSL, the
-- streaming library or a renderer, where client mode refuses or runs without a window; the Windows
-- side of the transport and the backend.
pub mod Base
pub mod Json
pub mod Ipc
pub mod Net
pub mod Client
pub mod Host
pub mod Main
mod Sample
mod Tests
