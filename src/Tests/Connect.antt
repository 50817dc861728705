-- ===== src/Tests/Connect.antt =====
-- Tests of a device that connects: MqttServer.cpp and SslSvrSession.cpp together.
use pushserver.Prelude.{
  ◌≡◌, ◌<◌, ◌+◌, ◌^◌, refl, [], ◌∷◌, ◌++◌, true, false, none, codes, ok, arith, length,
}
use pushserver.Prelude.Dict.{lookup}
use pushserver.Mqtt.Registry.{find_mqtt_session}
use pushserver.Mqtt.Session.{Session, sends, emit}
use pushserver.Mqtt.Framing.Frames.{frame_bytes}
use pushserver.Mqtt.Publish.{publish_frame}
use pushserver.Mqtt.Run.{Turn, other}
use pushserver.Provider.Session as Provider
use pushserver.Provider.Session.{World, store}
use pushserver.Provider.Session.Frames.{packet_of}
use pushserver.Provider.C2dm.Broadcast.{IsReachable}
use pushserver.System.{new_mqtt_server, accept_device, run_device}
use pushserver.System.Connect as Connect
use pushserver.System.Connect.{packet_handle-run_device}
use pushserver.Tests.Data.{toy, name, new_session, world, push_message}

keep_fits : 60 < 2 ^ 16
keep_fits = omega arith

json_fits : length name + 12 < 2 ^ 16
json_fits = omega arith

-- The session object of another device is registered in this world.
abbrev before : World
before = record world { registry = (codes "another", 7) ∷ [] }

unknown : find_mqtt_session (name ++ name) before.registry ≡ none
unfolding find_mqtt_session lookup
unknown = refl

abbrev turn : Turn
turn = record { live = false; read = other; buffer = []; n_len = 0; flush = other; unsent = none }

abbrev arrival : Turn
arrival =
    Connect.arrival toy 3 2 60 name name name name keep_fits json_fits refl refl refl refl (0 ∷ [])
      turn

abbrev nothing : Turn
nothing =
    Connect.nothing toy 3 2 60 name name name name keep_fits json_fits refl refl refl refl turn

abbrev still : Turn
still = Connect.still toy 3 2 60 name name name name keep_fits json_fits refl refl refl refl turn

abbrev online : World
online =
    Connect.online toy 3 2 60 name name name name keep_fits json_fits refl refl refl refl 9
      new_session before

abbrev device : Session
device =
    Connect.connected_as toy 3 2 60 name name name name keep_fits json_fits refl refl refl refl (
      Connect.made toy 3 2 60 name name name name keep_fits json_fits refl refl refl refl 9
        new_session before)

packet_handle-run_device_example :
    (run_device toy 0
        (arrival ∷ nothing ∷ still ∷ [])
        (record { timeout = false; kill = false; reads = true; writes = false; zmq = false })
        9
        (new_mqtt_server 9 new_session)
        (accept_device 9 new_session before)
      ≡ ok online)
    × IsReachable online (name ++ name)
    × (Provider.packet_handle toy (packet_of push_message) online
        ≡ ok (store 9 (emit (sends (frame_bytes (publish_frame 1 (codes "hi")))) device) online))
packet_handle-run_device_example =
    packet_handle-run_device toy 3 2 60 name name name name keep_fits json_fits refl refl refl refl
      0 9 new_session before turn turn turn (0 ∷ []) refl unknown (packet_of push_message)
      (codes "hi") (codes "hi") refl refl refl (omega arith)
