-- ===== src/System/Runs.antt =====
-- The runs of a provider's session as steps of the server: SslSvrSession.cpp.
use pushserver.Prelude.{ℕ, ◌≡◌, refl, List, Result, ok, thrown, overrun, stuck, Ends, Ends-weaken}
use pushserver.Json.{Json}
use pushserver.Mqtt.Run.{Events}
use pushserver.Provider.Packet.{ProviderPacket}
use pushserver.Provider.Session.{World, packet_handle}
use pushserver.Provider.Run.{Turn, Task, run}
use pushserver.Provider.Run.Keeps.{run-keeps}
use pushserver.System.{pushes, Reaches, here, next}
use pushserver.System.Delivers.{Delivers, packet_handle-Delivers}
use pushserver.System.Invariant.{Inv}
use pushserver.System.Steps.{Delivers-Inv}

Reaches-trans : {J : Json} {u v w : World} → Reaches J u v → Reaches J v w → Reaches J u w
Reaches-trans r here = r
Reaches-trans r (next q st) = next (Reaches-trans r q) st

-- One push message is a step.
packet_handle-Reaches :
    (J : Json) (p : ProviderPacket) (w : World) → Ends (Reaches J w) (packet_handle J p w)
packet_handle-Reaches J p w = go (packet_handle J p w) refl
  where
    go : (m : Result World) → packet_handle J p w ≡ m → Ends (Reaches J w) m
    go (ok w') e = next here (pushes p e)
    go thrown e = tt
    go overrun e = tt
    go stuck e = tt

-- A call of `Run` of a provider's session goes from state to state of the server.
pub run-Reaches :
    (J : Json) (holders : ℕ) (ts : List Turn) (ev : Events) (task : Task)
    → Ends (λ done. Reaches J task.world done.0.world) (run J holders ts ev task)
run-Reaches J =
    run-keeps J (Reaches J) (λ w. here) (λ u v w r q. Reaches-trans r q) (packet_handle-Reaches J)

-- One push message keeps what holds of the sessions and the registry.
packet_handle-Inv :
    (J : Json) (gone : List ℕ) (p : ProviderPacket) (w : World)
    → Ends (λ w'. Inv gone w → Inv gone w') (packet_handle J p w)
packet_handle-Inv J gone p w =
    Ends-weaken (Delivers p.token w) (λ w'. Inv gone w → Inv gone w') (packet_handle J p w)
      (packet_handle-Delivers J p w) (Delivers-Inv gone p.token w)

pub run-Inv :
    (J : Json) (gone : List ℕ) (holders : ℕ) (ts : List Turn) (ev : Events) (task : Task)
    → Ends (λ done. Inv gone task.world → Inv gone done.0.world) (run J holders ts ev task)
run-Inv J gone =
    run-keeps J (λ v w. Inv gone v → Inv gone w) (λ w inv. inv) (λ u v w f g inv. g (f inv))
      (packet_handle-Inv J gone)
