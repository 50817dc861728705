-- ===== src/System/Connect.antt =====
-- A device that connects and sends its CONNECT: MqttListenerSocket.cpp, MqttServer.cpp and
-- MqttSessionHandler.cpp together.
use pushserver.Prelude.{
  ℕ, ◌+◌, ◌*◌, ◌/◌, ◌%◌, ◌^◌, ◌≤◌, ◌<◌, ◌≡◌, refl, ap, ◌∙◌, [], ◌∷◌, ◌++◌, true, false, none, some,
  Bytes, codes, ok, length, arith, bind_known, length-append, ==_refl, take_then, bytes_eq_refl,
}
use pushserver.Json.{Json}
use pushserver.Mqtt.Packet.Code
use pushserver.Mqtt.Packet.{init_new, connected}
use pushserver.Mqtt.Registry.{add_mqtt_session, find_mqtt_session, find-add}
use pushserver.Mqtt.Session.{
  Session, emit, sends, refreshes, sets_timeout, packet_handle, send_connack, send_or_queue,
}
use pushserver.Mqtt.Session.Connect.{handle_connect_accepts}
use pushserver.Mqtt.Framing.Frames.{Frame, stream, run_frames, frame_bytes, frame_length}
use pushserver.Mqtt.Framing.Remaining.{encode_bounds}
use pushserver.Mqtt.Framing.Loop.{process_loop-run_frames}
use pushserver.Mqtt.Run.{
  Turn, no_error, request_arrived, kept, run, run_loop, serve_turn, flush_reply,
}
use pushserver.Provider.Packet.{ProviderPacket}
use pushserver.Provider.Session as Provider
use pushserver.Provider.Session.{World, store, app_id}
use pushserver.Provider.Session.Deliver.{packet_handle_sends}
use pushserver.Mqtt.Publish.{publish_frame}
use pushserver.Provider.C2dm.Broadcast.{IsReachable}
use pushserver.System.{new_mqtt_server, accept_device, run_device, after_run}

-- The CONNECT as the device writes it.
abbrev pub connect_frame : ℕ → ℕ → ℕ → Bytes → Frame
connect_frame version flags keep json = record {
  command = 16;
  body = 0 ∷ 6 ∷ (codes "MQIsdp" ++ (version ∷ flags ∷ (keep / 2 ^ 8) ∷ (keep % 2 ^ 8) ∷ json));
}

module _ (J : Json) (version flags keep : ℕ) (json : Bytes) (root field : J.Value) (user : Bytes)
    (hk : keep < 2 ^ 16) (hj : length json + 12 < 2 ^ 16) (parsed : J.parse json ≡ some root)
    (named : J.get root (codes "username") ≡ some field) (is_text : J.as_string field ≡ some user)
    (size : length user ≡ 16) where
  -- The session behind the CONNECT.
  abbrev pub connected_as : Session → Session
  connected_as s = record s {
    status = connected;
    protocol_name = codes "MQIsdp";
    protocol_version = version;
    flag = flags;
    keep_alive = keep;
    client_id = user ++ user;
    registry = (add_mqtt_session (user ++ user) s.self s.registry).0;
    effects = sends (32 ∷ 2 ∷ 0 ∷ 0 ∷ []) ∷ sets_timeout (keep * 2000) ∷ refreshes ∷ s.effects;
  }

  answered :
      (s : Session)
      → s.outcomes ≡ []
      → send_connack Code.success s
        ≡ (record s { effects = sends (32 ∷ 2 ∷ 0 ∷ 0 ∷ []) ∷ s.effects }, 0)
  unfolding send_connack send_or_queue
  answered s free = rw free refl

  abbrev fresh : Session → Session
  fresh s = record s { status = init_new }

  frames_connect :
      (s : Session)
      → s.outcomes ≡ []
      → run_frames J (connect_frame version flags keep json ∷ []) (fresh s) ≡ ok (connected_as s, 0)
  unfolding run_frames packet_handle
  frames_connect s free = bind_known _ (
      handle_connect_accepts J 16 version flags keep json (fresh s) root field user refl hk
        (omega arith) parsed named is_text size
      ∙ ap ok (answered _ free))

  -- The CONNECT has arrived, before any slack.
  abbrev pub arrival : Bytes → Turn → Turn
  arrival slack t = record t {
    live = true;
    read = request_arrived;
    buffer = stream (connect_frame version flags keep json ∷ []) ++ slack;
    n_len = length (stream (connect_frame version flags keep json ∷ []));
    flush = no_error;
  }

  serve_connect :
      (t : Turn) (slack : Bytes) (s : Session)
      → s.outcomes ≡ []
      → serve_turn J (arrival slack t) (fresh s) ≡ ok (connected_as s)
  unfolding serve_turn flush_reply
  serve_connect t slack s free = bind_known _ (
      process_loop-run_frames J (length (stream (connect_frame version flags keep json ∷ [])))
        (connect_frame version flags keep json ∷ []) slack (fresh s)
        ((omega arith, omega arith), tt)
        (omega (
          arith,
          length-append (frame_bytes (connect_frame version flags keep json)) [],
          frame_length (connect_frame version flags keep json),
          (encode_bounds (length (connect_frame version flags keep json).body)).1,
          hj,
        ))
        (omega arith)
      ∙ frames_connect s free)

  -- Nothing else has arrived.
  abbrev pub nothing : Turn → Turn
  nothing t = record t { live = true; read = no_error }

  abbrev pub still : Turn → Turn
  still t = record t { live = true }

  run_connect :
      (holders : ℕ) (t t' t'' : Turn) (slack : Bytes) (s : Session)
      → s.outcomes ≡ []
      → run J holders
          (arrival slack t ∷ nothing t' ∷ still t'' ∷ [])
          (record { timeout = false; kill = false; reads = true; writes = false; zmq = false })
          (fresh s)
        ≡ ok (connected_as s, kept)
  unfolding run run_loop
  run_connect holders t t' t'' slack s free = bind_known _ (serve_connect t slack s free)

  -- A session that has just been made, and the server once it is connected.
  abbrev pub made : ℕ → Session → World → Session
  made a memory w = record (new_mqtt_server a memory) { registry = w.registry }

  abbrev pub online : ℕ → Session → World → World
  online a memory w = store a (connected_as (made a memory w)) (record (accept_device a memory w) {
    registry = (add_mqtt_session (user ++ user) a w.registry).0;
  })

  find-online :
      (a : ℕ) (memory : Session) (w : World)
      → find_mqtt_session (user ++ user) w.registry ≡ none
      → find_mqtt_session (user ++ user) (online a memory w).registry ≡ some a
  find-online a memory w unknown = ground (
    arith,
    find-add (user ++ user) (user ++ user) a w.registry,
    unknown,
    bytes_eq_refl (user ++ user),
  )

  -- A device connects, and its new session gets an object at an address; its CONNECT arrives in one
  -- read, before any slack, with a keep-alive of 16 bits, less than 2^16 - 12 bytes of JSON and a
  -- user name of 16 bytes in it, and then nothing else; its socket takes what it is given, and the
  -- registry does not have the user name written twice: a call of Run for this read event alone
  -- returns, keeps the session, connected under this token with a timeout of twice the keep-alive
  -- and a CONNACK with code 0 sent, and the token is registered to it. A push message for the
  -- token, in JSON that takes the application's id as a member and is then at most 125 bytes, is
  -- sent on its connection as one PUBLISH packet with the message id 1.
  pub packet_handle-run_device :
      (holders a : ℕ) (memory : Session) (w : World) (t t' t'' : Turn) (slack : Bytes)
      → memory.outcomes ≡ []
      → find_mqtt_session (user ++ user) w.registry ≡ none
      → (p : ProviderPacket) (message message' : J.Value) → p.token ≡ user ++ user
      → J.parse p.payload ≡ some message
      → J.set message (codes "appid") (J.of_string app_id) ≡ some message'
      → length (J.write message') ≤ 125
      → (run_device J holders
            (arrival slack t ∷ nothing t' ∷ still t'' ∷ [])
            (record { timeout = false; kill = false; reads = true; writes = false; zmq = false })
            a
            (new_mqtt_server a memory)
            (accept_device a memory w)
          ≡ ok (online a memory w))
        × IsReachable (online a memory w) (user ++ user)
        × (Provider.packet_handle J p (online a memory w)
            ≡ ok (
                store a
                  (emit
                    (sends (frame_bytes (publish_frame 1 (J.write message'))))
                    (connected_as (made a memory w)))
                  (online a memory w)))
  unfolding run_device after_run accept_device
  packet_handle-run_device holders a memory w t t' t'' slack free unknown p message message' same
        parsed' marked short =
      let found = find-online a memory w unknown in
      (
        bind_known _ (run_connect holders t t' t'' slack (made a memory w) free),
        (a, connected_as (made a memory w), found, take_then _ _ (==_refl a), free),
        packet_handle_sends J p (online a memory w) message message' parsed' marked a
            (connected_as (made a memory w))
            (ap (λ token. find_mqtt_session token (online a memory w).registry) same ∙ found)
            (take_then _ _ (==_refl a)) free short,
      )
