-- ===== src/Mqtt/Session/Invariant.antt =====
-- The invariant of a device's session, over all packets: MqttServer.cpp.
use pushserver.Prelude.{
  ℕ, ◌≡◌, inl, inr, true, Bytes, Result, ok, thrown, overrun, stuck, arith, length, ◌==◌,
  Bool-cases,
}
use pushserver.Json.{Json}
use pushserver.Mqtt.Packet.Command
use pushserver.Mqtt.Packet.{disconnecting, MqttPacket, Status, init_new, connected}
use pushserver.Mqtt.Registry.{Registry}
use pushserver.Mqtt.Session.{
  Session, server_disconnect, high_nibble, handle_pingreq, handle_disconnect, emit, refreshes,
  handle_connect, packet_handle, is_init_new,
}
use pushserver.Mqtt.Session.Verdict.{Verdict, handle_connect-Verdict, handle_connect-again}

abbrev pub HasToken : Status → Bytes → Type 0
HasToken connected id = length id ≡ 32
HasToken init_new id = Unit {0}
HasToken disconnecting id = Unit {0}

-- A connected session has a token of 32 bytes.
abbrev pub IsSession : Session → Type 0
IsSession s = HasToken s.status s.client_id

abbrev pub Holds : (Session → Type 0) → Result (Session × ℕ) → Type 0
Holds P (ok (s, rc)) = P s
Holds P thrown = Unit {0}
Holds P overrun = ⊥
Holds P stuck = ⊥

Verdict-IsSession :
    (self : ℕ) (r : Registry) (m : Result (Session × ℕ)) → Verdict self r m → Holds IsSession m
Verdict-IsSession self r (ok (s, rc)) (inl a) = rw (a.0) (a.1)
Verdict-IsSession self r (ok (s, rc)) (inr b) = rw (b.0) tt
Verdict-IsSession self r thrown v = tt
Verdict-IsSession self r overrun v = v
Verdict-IsSession self r stuck v = v

disconnect-IsSession : (s : Session) → IsSession s → IsSession (server_disconnect s)
unfolding server_disconnect
disconnect-IsSession s v = v

pub is_init_new→eq : (st : Status) → is_init_new st ≡ true → st ≡ init_new
is_init_new→eq st h = ground arith

connect-IsSession :
    (J : Json) (p : MqttPacket) (s : Session) → IsSession s → Holds IsSession (handle_connect J p s)
connect-IsSession J p s v = elim (Bool-cases (is_init_new s.status)) [
  | inl new ↦
      Verdict-IsSession s.self s.registry (handle_connect J p s)
        (handle_connect-Verdict J p s (is_init_new→eq s.status new))
  | inr old ↦ rw (handle_connect-again J p s old) (disconnect-IsSession (emit refreshes s) v)
]

pingreq-IsSession : (s : Session) → IsSession s → IsSession (handle_pingreq s).0
unfolding handle_pingreq
pingreq-IsSession s v = ground arith

handle_disconnect-IsSession : (s : Session) → IsSession (handle_disconnect s).0
unfolding handle_disconnect
handle_disconnect-IsSession s = tt

-- Whatever packet arrives, a session that is connected afterwards has a token of 32 bytes, if that
-- held before; no handler leaves a buffer or runs out of anything.
pub packet_handle-IsSession :
    (J : Json) (p : MqttPacket) (s : Session) → IsSession s → Holds IsSession (packet_handle J p s)
unfolding packet_handle
packet_handle-IsSession J p s v = elim (Bool-cases (high_nibble p.command == Command.pingreq)) [
  | inl e ↦ rw e (pingreq-IsSession s v)
  | inr e ↦ elim (Bool-cases (high_nibble p.command == Command.connect)) [
    | inl e' ↦ rw (e, e') (connect-IsSession J p s v)
    | inr e' ↦ elim (Bool-cases (high_nibble p.command == Command.disconnect)) [
      | inl e'' ↦ rw (e, e', e'') (handle_disconnect-IsSession s)
      | inr e'' ↦ rw (e, e', e'') v
    ]
  ]
]
