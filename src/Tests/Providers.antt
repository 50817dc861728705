-- ===== src/Tests/Providers.antt =====
-- Tests of the push messages: SslSvrSession.cpp, PushC2DMClientSocket.cpp.
use pushserver.Prelude.{
  some, false, ◌≡◌, refl, [], ◌∷◌, ◌++◌, true, arith, replicate, ok, overrun, ◌>>=◌,
}
use pushserver.Prelude.Dict.{lookup}
use pushserver.Mqtt.Registry.{find_mqtt_session}
use pushserver.Provider.Session.{World, packet_handle, process_recv_msg, deliver}
use pushserver.Provider.Session.Frames.{stream, packet_of, parts, run_pushes}
use pushserver.Provider.Session.Underflow.{process_recv_msg-overrun}
use pushserver.Provider.C2dm.{Client}
use pushserver.Mqtt.Run.{Events, ZqError, too_big, kept}
use pushserver.Provider.Run.{Turn, Task, reading_request, run}
use pushserver.Tls.{error_none}
use pushserver.Provider.Stream.{RequestStream, read_request}
use pushserver.Provider.Stream.Session.{turn_of, read_request-run_pushes}
use pushserver.Provider.Run.Served.{served}
use pushserver.Tests.Data.{toy, token, world, push_message}

-- A world with no devices, where every message is handled.
abbrev empty_world : World
empty_world = record world { registry = [] }

handled : packet_handle toy (packet_of push_message) empty_world ≡ ok empty_world
unfolding packet_handle deliver find_mqtt_session lookup
handled = refl

-- All but the last byte of a message has arrived.
process_recv_msg-overrun_example :
    process_recv_msg toy (parts push_message (0 ∷ 0 ∷ [])) 38 empty_world ≡ overrun
process_recv_msg-overrun_example =
    process_recv_msg-overrun push_message (0 ∷ 0 ∷ []) toy 38 empty_world empty_world
      (omega arith, omega arith, omega arith) (omega arith) (omega arith) (omega arith)
      (omega arith) handled

abbrev client : Client
client = record {
  data_ = record { sz_token = replicate 35 0; sz_payload = replicate 258 0 };
  log = [];
}

registered : find_mqtt_session token world.registry ≡ some 7
unfolding find_mqtt_session lookup
registered = refl

abbrev turn : Turn
turn = record {
  live = true;
  read = too_big;
  buffer = stream (push_message ∷ []) ++ (0 ∷ []);
  n_len = 39;
}

abbrev task : Task
task = record { state = reading_request; messages = []; world = world; asks = [] }

abbrev events : Events
events = record { timeout = false; kill = false; reads = true; writes = false; zmq = false }

abbrev request_stream : RequestStream
request_stream = record { buffer = 9 ∷ 9 ∷ []; offset = 5; prints = true }

read_request-run_pushes_example :
    (s' : RequestStream) × (e : ZqError) × (read_request error_none
        (stream (push_message ∷ []))
        request_stream
      ≡ ok (s', e))
    × (run toy 1 (turn_of (s', e) ∷ []) events task
        ≡ (run_pushes toy (push_message ∷ []) world >>= λ done. ok (served task done, kept)))
read_request-run_pushes_example =
    read_request-run_pushes toy 1 [] events task (push_message ∷ []) request_stream
      (refl, refl, refl) refl (((omega arith, omega arith, omega arith), refl), tt) (omega arith)
