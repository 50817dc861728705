-- ===== src/Mqtt/Packet/Command.antt =====
-- The message types of MqttPacket.h.
use Prim.Native.Nat.{ℕ}

abbrev pub connect : ℕ
connect = 0x10

abbrev pub connack : ℕ
connack = 0x20

abbrev pub publish : ℕ
publish = 0x30

abbrev pub pingreq : ℕ
pingreq = 0xc0

abbrev pub pingresp : ℕ
pingresp = 0xd0

abbrev pub disconnect : ℕ
disconnect = 0xe0
