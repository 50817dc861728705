-- ===== src/Provider/Session.antt =====
-- `SslSvrSession::ProcessRecvMsg`, `PacketHandle` and the loop of `Run` over the received bytes, of
-- SslSvrSession.cpp. The buffer is the whole array behind `pBuffer`, which is never NULL.
pub mod Frames
pub mod Loop
pub mod Underflow
pub mod Deliver
pub mod Keeps
use pushserver.Prelude.{
  ℕ, zero, suc, ◌+◌, ◌-◌, ◌*◌, ◌%◌, ◌^◌, List, [], ◌∷◌, ◌++◌, Bool, true, false, Option, none, some,
  Bytes, Result, ok, overrun, stuck, thrown, ◌>>=◌, or_throw, codes, length, take, drop, get_elem?,
  replicate, sub32, leb, ltb, ◌==◌, if◌then◌else◌,
}
use pushserver.Json.{Json}
use pushserver.Mqtt.Packet.Code
use pushserver.Mqtt.Registry.{Registry, find_mqtt_session}
use pushserver.Mqtt.Session.{Session, send_publish}
use pushserver.Provider.Packet.{
  ProviderPacket, new_packet, set_command, set_token_length, set_token, set_payload_length,
  set_payload,
}

-- What the session shares with the device sessions: the registry, and the `MqttServer` objects by
-- address. `none` is memory that holds no live object.
pub record World : Type 0 where
  pub registry : Registry
  pub sessions : ℕ → Option Session

abbrev pub store : ℕ → Session → World → World
store a s w = record w { sessions = λ b. if a == b then some s else w.sessions b }

-- `appId`, set by the constructor.
abbrev pub app_id : Bytes
app_id = codes "1234567890"

-- The call `session->mqtt_send_publish(1, …, 0, false, false)` on the object at an address.
unfoldable pub deliver_to : ℕ → Option Session → Bytes → World → Result World
deliver_to a none message w = overrun
deliver_to a (some s) message w = do
  done ← send_publish 1 message 0 false false s
  ok (store a done.0 w)

unfoldable pub deliver : Option ℕ → Bytes → World → Result World
unfolding deliver_to
deliver none message w = ok w
deliver (some a) message w = deliver_to a (w.sessions a) message w

-- Where the payload is JSON.
unfoldable pub handle_parsed : (J : Json) → Option J.Value → ProviderPacket → World → Result World
unfolding deliver
handle_parsed J none p w = ok w
handle_parsed J (some root) p w = do
  root' ← or_throw (J.set root (codes "appid") (J.of_string app_id))
  deliver (find_mqtt_session p.token w.registry) (J.write root') w

-- The result is 0 on every path.
unfoldable pub packet_handle : Json → ProviderPacket → World → Result World
unfolding handle_parsed
packet_handle J p w = handle_parsed J (J.parse p.payload) p w

-- `n` bytes of the buffer from an offset on, and one byte.
abbrev pub slice : Bytes → ℕ → ℕ → Result Bytes
slice buffer offset n =
    if leb (offset + n) (length buffer) then ok (take n (drop offset buffer)) else overrun

abbrev pub byte_at : Bytes → ℕ → Result ℕ
byte_at buffer i = elim (get_elem? buffer i) [ none ↦ overrun | some b ↦ ok b ]

abbrev pub uint16 : ℕ → ℕ → ℕ
uint16 msb lsb = (msb * 2 ^ 8 + lsb) % 2 ^ 16

pub record Step : Type 0 where
  pub world : World
  pub rc : ℕ
  pub buffer : Bytes
  pub left : ℕ

-- `nLen` is now `left`; the rest moves to the front, and `memset` clears what is behind it.
unfoldable pub move_rest : Bytes → ℕ → ℕ → ℕ → World → Result Step
move_rest buffer n_len used left w =
    if left == 0
    then ok (record { world = w; rc = Code.success; buffer = buffer; left = left })
    else do
      rest ← slice buffer used left
      ok (record {
        world = w;
        rc = Code.success;
        buffer = rest ++ (replicate (sub32 n_len left) 0 ++ drop (left + sub32 n_len left) buffer);
        left = left;
      })

-- `nLen -= …` is unsigned.
abbrev pub finish_recv_msg : Bytes → ℕ → ℕ → World → Result Step
finish_recv_msg buffer n_len used w = move_rest buffer n_len used (sub32 n_len used) w

abbrev pub failed : Bytes → ℕ → World → Step
failed buffer n_len w = record { world = w; rc = Code.protocol; buffer = buffer; left = n_len }

-- The packet as the setters leave it.
abbrev pub build : ℕ → ℕ → Bytes → ℕ → Bytes → ProviderPacket
build cmd token_len token payload_len payload =
    set_payload payload
      (set_payload_length payload_len
        (set_token token (set_token_length token_len (set_command cmd new_packet).0).0)).0

unfoldable pub process_payload : Json → Bytes → ℕ → ℕ → ℕ → Bytes → ℕ → World → Result Step
unfolding set_payload set_payload_length set_token set_token_length set_command
process_payload J buffer n_len cmd token_len token payload_len w =
    if ltb n_len (payload_len + 35) then ok (failed buffer n_len w) else do
      payload ← slice buffer (5 + token_len) payload_len
      w' ← packet_handle J (build cmd token_len token payload_len payload) w
      finish_recv_msg buffer n_len (payload_len + 2 + token_len + 2 + 1) w'

unfoldable pub process_recv_msg : Json → Bytes → ℕ → World → Result Step
process_recv_msg J buffer n_len w = if leb n_len 35 then ok (failed buffer n_len w) else do
  cmd ← byte_at buffer 0
  msb ← byte_at buffer 1
  lsb ← byte_at buffer 2
  token ← slice buffer 3 (uint16 msb lsb)
  msb' ← byte_at buffer (3 + uint16 msb lsb)
  lsb' ← byte_at buffer (4 + uint16 msb lsb)
  process_payload J buffer n_len cmd (uint16 msb lsb) token (uint16 msb' lsb') w

-- `while(err == ZQ_NoErr && nLen > 0) err = ProcessRecvMsg(pBuffer, nLen)`, with fuel.
unfoldable pub process_loop : ℕ → Json → Bytes → ℕ → World → Result (World × ℕ)
process_loop fuel J buffer zero w = ok (w, Code.success)
process_loop zero J buffer (suc n) w = stuck
process_loop (suc fuel) J buffer (suc n) w = do
  step ← process_recv_msg J buffer (suc n) w
  let next = process_loop fuel J step.buffer step.left step.world
  if step.rc == 0 then next else ok (step.world, step.rc)
