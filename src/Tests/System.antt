-- ===== src/Tests/System.antt =====
-- Tests of the sessions of devices and providers together.
use pushserver.Prelude.{
  ◌≡◌, ◌≢◌, ◌⊎◌, refl, [], ◌∷◌, ◌++◌, true, false, some, none, codes, ok, overrun, arith,
}
use pushserver.Prelude.Dict.{lookup, insert, put}
use pushserver.Mqtt.Packet.{
  init_new, connected, read_string, read_uint8, read_uint16, get_json_msg, new_packet, set_command,
  set_receive_payload,
}
use pushserver.Mqtt.Registry.{find_mqtt_session, add_mqtt_session}
use pushserver.Mqtt.Session.{
  Session, sends, emit, sets_timeout, refreshes, handle_connect, packet_handle, connect_name,
  connect_version, connect_flag, connect_keep_alive, connect_json, connect_user, send_connack,
  send_or_queue,
}
use pushserver.Mqtt.Session.Connect.{connect_packet}
use pushserver.Mqtt.Framing.{
  process_loop, process_recv_msg, process_bytes, process_frame, decode_remaining, finish_recv_msg,
}
use pushserver.Mqtt.Framing.Frames.{Frame, frame_bytes}
use pushserver.Mqtt.Framing.Remaining.{encode_remaining}
use pushserver.Mqtt.Publish.{publish_frame}
use pushserver.Mqtt.Run.{
  Turn, Events, no_error, request_arrived, run, run_loop, serve_turn, flush_reply,
}
use pushserver.Provider.Session as Push
use pushserver.Provider.Session.{World, store}
use pushserver.Provider.Session.Deliver.{packet_handle_sends}
use pushserver.Provider.Session.Frames.{packet_of}
use pushserver.System.{
  new_mqtt_server, accept_device, forget, run_device, after_run, accepts, runs, Reaches, here, next,
  start, deleted_at, IsIn,
}
use pushserver.System.Steps.{Reaches-packet_handle}
use pushserver.System.Reuse.{packet_handle-reused, packet_handle-reconnected}
use pushserver.Tests.Data.{toy, name, token, new_session, push_message}

-- A CONNECT of a device, and what its session does with it.
abbrev connects : Frame
connects = record { command = 16; body = 0 ∷ 6 ∷ (codes "MQIsdp" ++ 3 ∷ 2 ∷ 0 ∷ 60 ∷ name) }

abbrev arrives : Turn
arrives = record {
  live = true;
  read = request_arrived;
  buffer = frame_bytes connects ++ 0 ∷ [];
  n_len = 30;
  flush = no_error;
  unsent = none;
}

abbrev idle : Turn
idle = record arrives { read = no_error }

abbrev reads : Events
reads = record { timeout = false; kill = false; reads = true; writes = false; zmq = false }

abbrev memory : Session
memory = record new_session { registry = [] }

abbrev taken_in : World
taken_in = store 7 (new_mqtt_server 7 memory) start

abbrev device : Session
device = record (new_mqtt_server 7 memory) {
  status = connected;
  protocol_name = codes "MQIsdp";
  protocol_version = 3;
  flag = 2;
  keep_alive = 60;
  client_id = token;
  registry = (token, 7) ∷ [];
  effects = sends (32 ∷ 2 ∷ 0 ∷ 0 ∷ []) ∷ sets_timeout 120000 ∷ refreshes ∷ [];
}

-- The device is connected.
abbrev online : World
online = store 7 device (record taken_in { registry = (token, 7) ∷ [] })

connects_device :
    run_device toy 0 (arrives ∷ idle ∷ idle ∷ []) reads 7 (new_mqtt_server 7 memory) taken_in
    ≡ ok online
unfolding run_device run run_loop serve_turn process_loop process_recv_msg process_bytes
    process_frame decode_remaining finish_recv_msg flush_reply packet_handle handle_connect
    connect_name connect_version connect_flag connect_keep_alive connect_json connect_user
    send_connack send_or_queue read_string read_uint8 read_uint16 get_json_msg new_packet
    set_command set_receive_payload add_mqtt_session insert put lookup after_run encode_remaining
connects_device = refl

online-Reaches : Reaches toy start online
unfolding accept_device
online-Reaches =
    next (next here (accepts 7 memory refl refl))
      (runs 0 (arrives ∷ idle ∷ idle ∷ []) reads 7 (new_mqtt_server 7 memory) refl connects_device)

registered : find_mqtt_session token online.registry ≡ some 7
unfolding find_mqtt_session lookup
registered = refl

abbrev pushed : World
pushed = store 7 (emit (sends (frame_bytes (publish_frame 1 (codes "hi")))) device) online

reaches_device : Push.packet_handle toy (packet_of push_message) online ≡ ok pushed
reaches_device =
    packet_handle_sends toy (packet_of push_message) online (codes "hi") (codes "hi") refl refl 7
      device registered refl refl (omega arith)

Reaches-packet_handle_example :
    (pushed.sessions 7 ≡ online.sessions 7)
    ⊎ ((d : Session) × (online.sessions 7 ≡ some d)
        × (find_mqtt_session token online.registry ≡ some 7)
        × (((d.status ≢ init_new) × (d.client_id ≡ token)) ⊎ IsIn 7 (deleted_at online-Reaches)))
Reaches-packet_handle_example =
    Reaches-packet_handle toy online pushed online-Reaches (packet_of push_message) reaches_device 7

-- The device's session times out, and another one gets its address.
abbrev timeout : Events
timeout = record reads { timeout = true }

abbrev reused : World
reused = store 7 (new_mqtt_server 7 memory) (forget 7 online)

packet_handle-reused_example :
    (run_device toy 0 [] timeout 7 device online ≡ ok (forget 7 online))
    × (Push.packet_handle toy (packet_of push_message) (forget 7 online) ≡ overrun)
    × (accept_device 7 memory (forget 7 online) ≡ reused)
    × (Push.packet_handle toy (packet_of push_message) reused
        ≡ ok (
            store 7
              (emit (sends (frame_bytes (publish_frame 1 (codes "hi")))) (new_mqtt_server 7 memory))
              reused))
packet_handle-reused_example =
    packet_handle-reused toy (packet_of push_message) online (codes "hi") (codes "hi") refl refl 7
      device registered 0 [] timeout memory refl refl (omega arith)

-- The device connects again, at another address.
abbrev again : Session
again = record device { self = 8 }

connects_again :
    handle_connect toy
      (connect_packet 16 3 2 60 name)
      (record (new_mqtt_server 8 memory) { registry = (token, 7) ∷ [] })
    ≡ ok (again, 0)
unfolding handle_connect connect_name connect_version connect_flag connect_keep_alive connect_json
    connect_user send_connack send_or_queue read_string read_uint8 read_uint16 get_json_msg
    add_mqtt_session insert lookup
connects_again = refl

packet_handle-reconnected_example :
    Push.packet_handle toy
      (packet_of push_message)
      (store 8 again (record (forget 7 online) { registry = (token, 7) ∷ [] }))
    ≡ overrun
packet_handle-reconnected_example =
    packet_handle-reconnected toy (packet_of push_message) (forget 7 online) (codes "hi")
      (codes "hi") refl refl 7 registered refl (connect_packet 16 3 2 60 name) 8
      (new_mqtt_server 8 memory) again 0 (omega arith) refl connects_again refl refl
