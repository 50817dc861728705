-- ===== src/Mqtt/Framing/Safety.antt =====
-- The receive loop of MqttServer.cpp on any bytes: it stays inside the buffer and ends.
use pushserver.Prelude.{Result, ok, thrown, overrun, stuck}
use pushserver.Json.{Json}
use pushserver.Mqtt.Packet.Command
use pushserver.Mqtt.Session.{Session}

-- A value, or an exception of the JSON library.
abbrev pub Ends {ℓ} : {A : Type ℓ} → Result A → Type 0
Ends (ok a) = Unit {0}
Ends thrown = Unit {0}
Ends overrun = ⊥
Ends stuck = ⊥
