-- ===== src/Tests/Publish.antt =====
-- Tests of a provider's publish request, from its session to the devices.
use pushserver.Prelude.{
  ◌≡◌, refl, inl, [], ◌∷◌, ◌++◌, true, false, Bytes, Bool, codes, arith, replicate, length, ok, map,
}
use pushserver.Prelude.Dict.{lookup}
use pushserver.Mqtt.Packet.Code
use pushserver.Mqtt.Registry.{find_mqtt_session}
use pushserver.Mqtt.Run.{Events, request_arrived, kept}
use pushserver.Provider.Session.{World}
use pushserver.Provider.Session.Frames.{stream}
use pushserver.Provider.Run.{Turn, Task, reading_request, run}
use pushserver.Provider.Run.Served.{served}
use pushserver.Provider.C2dm.{payload_text}
use pushserver.Provider.C2dm.Broadcast.{Broadcasts, IsReachable, published}
use pushserver.App.Session.{Session, publish_all}
use pushserver.App.Session.Clients.{Clients, perform}
use pushserver.App.Session.Clients.Device.{entry}
use pushserver.System.Publish.{reached, messages, logged, run-publish_all}
use pushserver.Tests.Data.{toy, redis, request, open_session, token, message, world, new_session}
use pushserver.Tests.Clients.{devices, clients}

abbrev quick_clients : Clients
quick_clients = record clients { outcomes = [] }

abbrev text : Bytes
text = codes "hello"

-- Both messages have arrived, and something stands behind them.
abbrev turn : Turn
turn = record {
  live = true;
  read = request_arrived;
  buffer = stream (messages redis text devices) ++ (0 ∷ []);
  n_len = length (stream (messages redis text devices));
}

abbrev task : Task
task = record { state = reading_request; messages = []; world = world; asks = [] }

abbrev events : Events
events = record { timeout = false; kill = false; reads = true; writes = false; zmq = false }

nothing_yet : perform {J = toy} message (replicate 32 0) [] quick_clients ≡ ok quick_clients
unfolding perform
nothing_yet = refl

reachable : IsReachable world token
unfolding find_mqtt_session lookup
reachable = (7, new_session, refl, refl, refl)

run-publish_all_example :
    ((s' : Session toy) × (flag : Bool) × (c1 : Clients) × (publish_all toy redis request
          (map entry devices)
          open_session
        ≡ ok (s', flag))
      × (perform message (replicate 32 0) s'.log quick_clients ≡ ok c1)
      × (c1.c2dm.log ≡ logged (messages redis text devices) []))
    × ((w' : World) × (run toy 0 (turn ∷ []) events task
          ≡ ok (served task (w', Code.success), kept))
        × Broadcasts
            (published toy text (payload_text text) (payload_text text) refl refl (omega arith))
            (reached redis devices)
            world
            w')
run-publish_all_example =
    run-publish_all redis request message (replicate 32 0) text text refl refl (omega arith)
      (omega arith) (payload_text text) (payload_text text) refl refl (omega arith) devices
      open_session quick_clients quick_clients
      (
        (refl, ground arith),
        (
          (refl, ground arith, refl, omega arith),
          ((refl, ground arith), ((refl, ground arith, refl, omega arith), tt)),
        ),
      )
      nothing_yet refl 0 turn [] events task (0 ∷ []) (reachable, (reachable, tt))
      (refl, refl, refl) refl refl (inl refl) refl refl (omega arith)
