-- ===== src/Mqtt/Packet/Code.antt =====
-- EMqttErrorCode of MqttPacket.h, as the `int` that the handlers return.
use Prim.Native.Nat.{ℕ}

abbrev pub success : ℕ
success = 0

abbrev pub protocol : ℕ
protocol = 2

abbrev pub inval : ℕ
inval = 3

abbrev pub conn_refused : ℕ
conn_refused = 5
