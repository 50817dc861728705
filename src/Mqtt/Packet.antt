-- ===== src/Mqtt/Packet.antt =====
-- MqttPacket.h and MqttPacket.cpp: one received MQTT packet and the cursor that reads it.
-- Numbers are the values of the unsigned fields. `payload` is `none` for the NULL pointer. The
-- members `m_haveRemaining`, `m_remainingCount`, `m_packetLength` and `m_toProcess`, which no
-- operation reads, are left out.
pub mod Code
pub mod Command
pub mod Reads
use Code
use pushserver.Prelude.{
  ℕ, ◌+◌, ◌-◌, ◌*◌, ◌/◌, ◌%◌, ◌^◌, List, [], ◌∷◌, Option, none, some, Bytes, ltb, length, take,
  drop, get_elem?, ◌==◌, if◌then◌else◌,
}

pub data Status : Type 0 where
  init_new connected disconnecting : Status

pub record MqttPacket : Type 0 where
  pub command : ℕ
  pub mid : ℕ
  pub remaining_length : ℕ
  pub pos : ℕ
  pub payload : Option Bytes

-- `Reset` leaves `m_mid` as it is.
unfoldable pub reset : MqttPacket → MqttPacket
reset p = record p { command = 0; remaining_length = 0; pos = 0; payload = none }

-- A new packet: `mid` is the value that the uninitialised member happens to have.
unfoldable pub new_packet : ℕ → MqttPacket
unfolding reset
new_packet mid =
    reset (record { command = 0; mid = mid; remaining_length = 0; pos = 0; payload = none })

unfoldable pub set_command : ℕ → MqttPacket → MqttPacket × ℕ
set_command cmd p = (record p { command = cmd % 2 ^ 8 }, p.command)

unfoldable pub set_remaining_length : ℕ → MqttPacket → MqttPacket × ℕ
set_remaining_length n p = (record p { remaining_length = n % 2 ^ 8 }, p.remaining_length % 2 ^ 8)

-- Only the low byte of the length comes back.
unfoldable pub get_remaining_length : MqttPacket → ℕ
get_remaining_length p = p.remaining_length % 2 ^ 8

unfoldable pub set_mid : ℕ → MqttPacket → MqttPacket × ℕ
set_mid mid p = (record p { mid = mid % 2 ^ 16 }, p.mid)

-- `buf` is what stands in memory from the pointer on; the length is a `uint16_t`.
unfoldable pub set_receive_payload : Bytes → ℕ → MqttPacket → MqttPacket
set_receive_payload buf n p = record p {
  remaining_length = n % 2 ^ 16;
  payload = some (take (n % 2 ^ 16) buf);
}

-- The bytes behind the payload pointer.
abbrev pub payload_bytes : MqttPacket → Bytes
payload_bytes p = elim p.payload [ none ↦ [] | some bs ↦ bs ]

-- `m_payload[i]`; the guards of the callers keep `i` inside, and a stray read is 0 here.
abbrev pub byte_at : MqttPacket → ℕ → ℕ
byte_at p i = elim (get_elem? (payload_bytes p) i) [ none ↦ 0 | some b ↦ b ]

-- Behind the message id; the length is unsigned and wraps.
unfoldable pub get_payload : MqttPacket → Bytes
get_payload p = take ((p.remaining_length + 2 ^ 32 - 2) % 2 ^ 32) (drop 2 (payload_bytes p))

-- What the cursor has not reached.
unfoldable pub get_json_msg : MqttPacket → Bytes
get_json_msg p =
    take ((p.remaining_length + 2 ^ 32 - p.pos) % 2 ^ 32) (drop p.pos (payload_bytes p))

-- A read returns its code, the new value of the variable that it is given, and the packet.
pub record Read (A : Type 0) : Type 0 where
  pub code : ℕ
  pub value : A
  pub packet : MqttPacket

unfoldable pub read_uint16 : MqttPacket → ℕ → Read ℕ
read_uint16 p word =
    if ltb p.remaining_length ((p.pos + 2) % 2 ^ 32)
    then record { code = Code.protocol; value = word; packet = p }
    else record {
      code = Code.success;
      value = (byte_at p p.pos * 2 ^ 8 + byte_at p (p.pos + 1)) % 2 ^ 16;
      packet = record p { pos = (p.pos + 2) % 2 ^ 32 };
    }

unfoldable pub read_uint8 : MqttPacket → ℕ → Read ℕ
read_uint8 p num =
    if ltb p.remaining_length ((p.pos + 1) % 2 ^ 32)
    then record { code = Code.protocol; value = num; packet = p }
    else record {
      code = Code.success;
      value = byte_at p p.pos;
      packet = record p { pos = (p.pos + 1) % 2 ^ 32 };
    }

read_body : Bytes → Read ℕ → Read Bytes
read_body str len =
    if len.code == 0
    then (if ltb len.packet.remaining_length ((len.packet.pos + len.value) % 2 ^ 32)
        then record { code = Code.protocol; value = str; packet = len.packet }
        else record {
          code = Code.success;
          value = take len.value (drop len.packet.pos (payload_bytes len.packet));
          packet = record (len.packet) { pos = (len.packet.pos + len.value) % 2 ^ 32 };
        })
    else record { code = len.code; value = str; packet = len.packet }

-- `len` starts as 0 for the uninitialised local, which is not read where the first read fails.
unfoldable pub read_string : MqttPacket → Bytes → Read Bytes
unfolding read_body read_uint16
read_string p str = read_body str (read_uint16 p 0)
