-- ===== src/Mqtt/Session.antt =====
-- MqttServer.h and MqttServer.cpp: one device's connection. The state holds the members that the
-- handlers use, the shared registry of sessions, and what passes between the session and its
-- socket and timer, which are not part of the repository:
--   * `outcomes` are the error codes that `fSocket.Send` will return, in the order of the calls,
--     and 0 (`ZQ_NoErr`) after the last;
--   * `effects` are the calls made so far, the newest first.
pub mod Connect
pub mod Verdict
pub mod Invariant
use Prim.Native.Nat.{bit_or}
use pushserver.Prelude.{
  ℕ, ◌*◌, ◌/◌, ◌%◌, ◌^◌, ◌+◌, List, [], ◌∷◌, ◌++◌, Bool, true, false, none, some, Bytes, Result, ok,
  thrown, overrun, stuck, ◌>>=◌, or_throw, codes, strcmp_eq, length, ◌==◌, if◌then◌else◌, take, ltb,
}
use pushserver.Json.{Json}
use pushserver.Mqtt.Packet.Code
use pushserver.Mqtt.Packet.Command
use pushserver.Mqtt.Packet.{
  MqttPacket, Status, init_new, connected, disconnecting, Read, read_string, read_uint8,
  read_uint16, get_json_msg,
}
use pushserver.Mqtt.Registry.{Registry, add_mqtt_session, delete_mqtt_session}

pub data Effect : Type 0 where
  sends : Bytes → Effect
  -- `fSocket.RequestEvent(EV_RE | EV_WR)`
  wants_write : Effect
  -- `Signal(kWriteEvent)` of the task to itself
  signals_write : Effect
  -- `fTimeoutTask.RefreshTimeout()` and `SetTimeout(milliseconds)`
  refreshes : Effect
  sets_timeout : ℕ → Effect
  sleeps : ℕ → Effect

pub record Session : Type 0 where
  pub self : ℕ
  pub status : Status
  pub protocol_name : Bytes
  pub protocol_version : ℕ
  pub flag : ℕ
  pub keep_alive : ℕ
  pub client_id : Bytes
  pub msg_list : List Bytes
  pub registry : Registry
  pub outcomes : List ℕ
  pub effects : List Effect

abbrev pub emit : Effect → Session → Session
emit e s = record s { effects = e ∷ s.effects }

-- `fSocket.Send`.
abbrev pub socket_send : Bytes → Session → Session × ℕ
socket_send bytes s = elim s.outcomes [
  | [] ↦ (emit (sends bytes) s, 0)
  | e ∷ es ↦ (record (emit (sends bytes) s) { outcomes = es }, e)
]

-- The tail of every sender: what the socket refuses is kept for the next write event.
unfoldable pub send_or_queue : Bytes → Session → Session × ℕ
send_or_queue bytes s =
    let (s', err) = socket_send bytes s in
    if err == 0
    then (s', err)
    else (record (emit wants_write s') { msg_list = s'.msg_list ++ bytes ∷ [] }, err)

unfoldable pub send_connack : ℕ → Session → Session × ℕ
unfolding send_or_queue
send_connack result = send_or_queue (Command.connack ∷ 2 ∷ 0 ∷ (result % 2 ^ 8) ∷ [])

unfoldable pub send_pingresp : Session → Session × ℕ
unfolding send_or_queue
send_pingresp = send_or_queue (Command.pingresp ∷ 0 ∷ [])

-- The first byte is `PUBLISH | ((dup&0x1)<<3) | (qos<<1)`; `retain` is not used. The local buffer
-- has 2048 bytes.
unfoldable pub send_publish : ℕ → Bytes → ℕ → Bool → Bool → Session → Result (Session × ℕ)
unfolding send_or_queue
send_publish mid payload qos retain dup s =
    if ltb 2048 (4 + length payload)
    then overrun
    else ok (
        send_or_queue
          ((bit_or (bit_or Command.publish (if dup then 8 else 0)) (qos * 2) % 2 ^ 8)
            ∷ ((length payload + 2) % 2 ^ 8)
            ∷ (mid / 2 ^ 8 % 2 ^ 8)
            ∷ (mid % 2 ^ 8)
            ∷ payload)
          s)

unfoldable pub server_disconnect : Session → Session
server_disconnect s =
    emit (sets_timeout 1) (record s { registry = (delete_mqtt_session s.client_id s.registry).0 })

-- A connection is refused: the acknowledgement, then the end of the session.
abbrev pub refuse : ℕ → ℕ → Session → Result (Session × ℕ)
refuse result rc s = ok (server_disconnect (send_connack result s).0, rc)

abbrev pub is_init_new : Status → Bool
is_init_new init_new = true
is_init_new connected = false
is_init_new disconnecting = false

module _ (J : Json) where
  open J use {get, as_string, parse}

  -- From `clientId = root["username"].asString()` on.
  unfoldable pub connect_user : Bytes → Session → Result (Session × ℕ)
  unfolding send_connack server_disconnect
  connect_user name s =
      if length name == 16
      then (let s' = record s {
        client_id = name ++ name;
        status = connected;
        registry = (add_mqtt_session (name ++ name) s.self s.registry).0;
      } in
          ok (send_connack Code.success s'))
      else refuse Code.conn_refused Code.protocol (record s { client_id = name })

  -- From `fTimeoutTask.SetTimeout(keepAlive*2000)` on.
  unfoldable pub connect_json : MqttPacket → Session → Result (Session × ℕ)
  unfolding connect_user
  connect_json p s =
      let s' = emit (sets_timeout (s.keep_alive * 2000)) s in
      elim (parse (get_json_msg p)) [
        | none ↦ refuse Code.inval Code.protocol s'
        | some root ↦ do
          field ← or_throw (get root (codes "username"))
          name ← or_throw (as_string field)
          connect_user name s'
      ]

  unfoldable pub connect_keep_alive : MqttPacket → Session → Result (Session × ℕ)
  unfolding connect_json
  connect_keep_alive p s =
      let r = read_uint16 p s.keep_alive in
      let s' = record s { keep_alive = r.value } in
      if r.code == 0 then connect_json r.packet s' else refuse Code.inval 1 s'

  unfoldable pub connect_flag : MqttPacket → Session → Result (Session × ℕ)
  unfolding connect_keep_alive
  connect_flag p s =
      let r = read_uint8 p s.flag in
      let s' = record s { flag = r.value } in
      if r.code == 0 then connect_keep_alive r.packet s' else refuse Code.inval 1 s'

  unfoldable pub connect_version : MqttPacket → Session → Result (Session × ℕ)
  unfolding connect_flag
  connect_version p s =
      let r = read_uint8 p s.protocol_version in
      let s' = record s { protocol_version = r.value } in
      if r.code == 0 then connect_flag r.packet s' else refuse Code.inval 1 s'

  unfoldable pub connect_name : MqttPacket → Session → Result (Session × ℕ)
  unfolding connect_version
  connect_name p s =
      let r = read_string p s.protocol_name in
      let s' = record s { protocol_name = r.value } in
      if r.code == 0
      then (if length r.value == 0
          then refuse Code.protocol 3 s'
          else (if strcmp_eq r.value (codes "MQIsdp")
              then connect_version r.packet s'
              else refuse Code.protocol Code.protocol s'))
      else refuse Code.protocol 1 s'

  unfoldable pub handle_connect : MqttPacket → Session → Result (Session × ℕ)
  unfolding connect_name
  handle_connect p s =
      let s' = emit refreshes s in
      if is_init_new s.status then connect_name p s' else ok (server_disconnect s', Code.protocol)

unfoldable pub handle_disconnect : Session → Session × ℕ
unfolding server_disconnect
handle_disconnect s = (server_disconnect (record s { status = disconnecting }), Code.success)

unfoldable pub handle_pingreq : Session → Session × ℕ
unfolding send_or_queue
handle_pingreq s =
    let (s', err) = send_or_queue (Command.pingresp ∷ 0 ∷ []) (emit refreshes s) in
    (emit (sleeps 1) s', err)

unfoldable pub handle_puback : Session → Session × ℕ
handle_puback s = (emit refreshes s, Code.success)

-- `cmd & 0xF0` of a byte.
abbrev pub high_nibble : ℕ → ℕ
high_nibble b = b % 256 / 16 * 16

unfoldable pub packet_handle : (J : Json) → MqttPacket → Session → Result (Session × ℕ)
packet_handle J p s =
    let kind = high_nibble p.command in
    if kind == Command.pingreq
    then ok (handle_pingreq s)
    else (if kind == Command.connect
        then handle_connect J p s
        else (if kind == Command.disconnect
            then ok (handle_disconnect s)
            else ok (s, Code.protocol)))
