-- ===== src/Mqtt/Session/Connect.antt =====
-- `mqtt_handle_connect` of MqttServer.cpp.
use pushserver.Prelude.{
  ℕ, suc, ◌+◌, ◌-◌, ◌*◌, ◌%◌, ◌/◌, ◌^◌, ◌<◌, ◌≡◌, ◌≢◌, ◌∙◌, ◌∷◌, ◌++◌, none, some, Bytes, ok, arith,
  length, codes, bytes_eq_refl, take_all,
}
use pushserver.Json.{Json}
use pushserver.Mqtt.Packet.Code
use pushserver.Mqtt.Packet.{
  MqttPacket, init_new, connected, read_string, read_uint8, read_uint16, get_json_msg,
}
use pushserver.Mqtt.Registry.{add_mqtt_session, find_mqtt_session, find-delete}
use pushserver.Mqtt.Session.{
  Session, sets_timeout, refreshes, emit, send_connack, server_disconnect, connect_user,
  connect_json, handle_connect,
}

-- The packet of a well-formed CONNECT: protocol name, version, flags, keep-alive, JSON.
abbrev pub connect_packet : ℕ → ℕ → ℕ → ℕ → Bytes → MqttPacket
connect_packet cmd version flags keep json =
    let body : Bytes =
      0 ∷ 6 ∷ (codes "MQIsdp" ++ (version ∷ flags ∷ (keep / 2 ^ 8) ∷ (keep % 2 ^ 8) ∷ json)) in
    record { command = cmd; mid = 0; remaining_length = length body; pos = 0; payload = some body }

module _ (J : Json) (cmd version flags keep : ℕ) (json : Bytes) (s : Session) where
  -- The session when the JSON text is looked at.
  abbrev pub header_read : Session
  header_read = record s {
    protocol_name = codes "MQIsdp";
    protocol_version = version;
    flag = flags;
    keep_alive = keep;
    effects = refreshes ∷ s.effects;
  }

  connect_header :
      s.status ≡ init_new
      → keep < 2 ^ 16
      → length json < 2 ^ 31
      → handle_connect J (connect_packet cmd version flags keep json) s
        ≡ connect_json J
            (record (connect_packet cmd version flags keep json) { pos = 12 })
            header_read
  unfolding handle_connect read_string read_uint8 read_uint16
  connect_header new hk hj = ground arith

  json_read :
      length json < 2 ^ 31
      → get_json_msg (record (connect_packet cmd version flags keep json) { pos = 12 }) ≡ json
  unfolding get_json_msg
  json_read hj = rw size (take_all json)
    where
      size :
          (suc (suc (suc (suc (suc (suc (suc (suc (suc (suc (suc (suc (length json))))))))))))
              + 2 ^ 32
              - 12)
            % 2 ^ 32
          ≡ length json
      size = omega arith

  module _ (root field : J.Value) (user : Bytes) (new : s.status ≡ init_new) (hk : keep < 2 ^ 16)
      (hj : length json < 2 ^ 31) (parsed : J.parse json ≡ some root)
      (named : J.get root (codes "username") ≡ some field)
      (is_text : J.as_string field ≡ some user) where
    reach_user :
        handle_connect J (connect_packet cmd version flags keep json) s
        ≡ connect_user J user (emit (sets_timeout (keep * 2000)) header_read)
    unfolding connect_json
    reach_user = connect_header new hk hj ∙ ground (arith, json_read hj)

    -- A well-formed CONNECT of a new session, with less than 2^31 bytes of JSON and a user name of
    -- 16 bytes in it, connects the session: the token is the name twice, the registry is offered
    -- the session under it, the timeout is twice the keep-alive, and the answer is a CONNACK with
    -- code 0.
    pub handle_connect_accepts :
        length user ≡ 16
        → handle_connect J (connect_packet cmd version flags keep json) s
          ≡ ok (
              send_connack Code.success (record header_read {
                client_id = user ++ user;
                status = connected;
                registry = (add_mqtt_session (user ++ user) s.self s.registry).0;
                effects = sets_timeout (keep * 2000) ∷ refreshes ∷ s.effects;
              }))
    unfolding connect_user
    handle_connect_accepts h = reach_user ∙ ground arith

    -- A well-formed CONNECT of a new session whose user name has another length is refused, and
    -- what the registry holds under that name is removed, whichever session it is: the 32 bytes of
    -- another device's token as user name take that device out of the registry.
    pub handle_connect_evicts :
        length user ≢ 16
        → (s' : Session) × (handle_connect J (connect_packet cmd version flags keep json) s
            ≡ ok (s', Code.protocol))
          × (s'.status ≡ init_new)
          × (find_mqtt_session user s'.registry ≡ none)
    unfolding connect_user
    handle_connect_evicts h = (
      server_disconnect
          (send_connack Code.conn_refused (record header_read {
            client_id = user;
            effects = sets_timeout (keep * 2000) ∷ refreshes ∷ s.effects;
          })).0,
      reach_user ∙ ground arith,
      ground arith,
      ground (arith, find-delete user user s.registry, bytes_eq_refl user),
    )
