-- ===== src/System/Owners.antt =====
-- Whose entries of the registry a device's session changes: MqttServer.cpp.
use pushserver.Prelude.{
  ℕ, ◌⊎◌, Ends-if, ◌≡◌, ◌≢◌, refl, sym, ap, ◌∙◌, inl, inr, some, Bytes, Result, ok, thrown, overrun,
  stuck, Ends, bytes_eq_iff, arith, Bool-cases, ◌==◌,
}
use pushserver.Json.{Json}
use pushserver.Mqtt.Packet.Command
use pushserver.Mqtt.Packet.{MqttPacket, init_new}
use pushserver.Mqtt.Registry.{
  Registry, find_mqtt_session, find-add, find-delete, delete_mqtt_session, add_mqtt_session,
}
use pushserver.Mqtt.Session.{
  Session, packet_handle, handle_connect, handle_disconnect, handle_pingreq, server_disconnect,
  high_nibble, is_init_new, emit, refreshes,
}
use pushserver.Mqtt.Session.Verdict.{
  Accepted, Verdict, handle_connect-Verdict, handle_connect-again,
}
use pushserver.Mqtt.Session.Invariant.{is_init_new→eq}
use pushserver.Mqtt.Framing.Keeps.{SameCore}

-- The entries that name the session have its own token, and it is not new.
abbrev pub Owns : Session → Type 0
Owns s =
    (token : Bytes)
    → find_mqtt_session token s.registry ≡ some s.self
    → (s.status ≢ init_new) × (s.client_id ≡ token)

-- A step of a session: entries that name others were there before.
pub record Keeps (s s' : Session) : Type 0 where
  pub self_same : s'.self ≡ s.self
  pub others :
      (token : Bytes) (b : ℕ)
      → find_mqtt_session token s'.registry ≡ some b
      → b ≢ s.self
      → find_mqtt_session token s.registry ≡ some b
  pub owns : Owns s → Owns s'

pub Keeps-trans : (s t u : Session) → Keeps s t → Keeps t u → Keeps s u
Keeps-trans s t u h k = record {
  self_same = k.self_same ∙ h.self_same;
  others = λ token b e n. h.others token b (k.others token b e (λ same. n (same ∙ h.self_same))) n;
  owns = λ o. k.owns (h.owns o);
}

pub Keeps-core : (s s' : Session) → SameCore s s' → Keeps s s'
Keeps-core s s' (self, status, id, registry) = record {
  self_same = self;
  others = λ token b e n. ap (find_mqtt_session token) (sym registry) ∙ e;
  owns = λ o token e.
      let (old, same) = o token (ap (find_mqtt_session token) (sym registry) ∙ e ∙ ap some self) in
      (λ new. old (sym status ∙ new), id ∙ same);
}

-- A session that takes an entry out of the registry, and keeps its token, or was new and owns none.
removed-Keeps :
    (s s' : Session) (name : Bytes)
    → s'.self ≡ s.self
    → s'.registry ≡ (delete_mqtt_session name s.registry).0
    → (Owns s
        → (token : Bytes) → find_mqtt_session token s.registry ≡ some s.self
        → (s'.status ≢ init_new) × (s'.client_id ≡ token))
    → Keeps s s'
removed-Keeps s s' name self registry owner = record {
  self_same = self;
  others = λ token b e n. was token b e;
  owns = λ o token e. owner o token (was token s.self (e ∙ ap some self));
}
  where
    was :
        (token : Bytes) (b : ℕ)
        → find_mqtt_session token s'.registry ≡ some b
        → find_mqtt_session token s.registry ≡ some b
    was token b e =
        let gone = ap (find_mqtt_session token) registry ∙ find-delete name token s.registry in
        ground (arith, gone, e)

-- An entry behind an addition is the new one, or was there.
added-find :
    (name token : Bytes) (a b : ℕ) (r : Registry)
    → find_mqtt_session token (add_mqtt_session name a r).0 ≡ some b
    → ((name ≡ token) × (a ≡ b)) ⊎ (find_mqtt_session token r ≡ some b)
added-find name token a b r e = ground (arith, find-add name token a r, bytes_eq_iff name token, e)

accepted-Keeps : (s s' : Session) → s.status ≡ init_new → Accepted s.self s.registry s' → Keeps s s'
accepted-Keeps s s' new (status, size, registry, self) = record {
  self_same = self;
  others = λ token b e n. elim (entry token b e) [
    | inl added ↦ absurd (n (sym added.1))
    | inr was ↦ was
  ];
  owns = λ o token e. elim (entry token s.self (e ∙ ap some self)) [
    | inl added ↦ (λ again. cc, added.0)
    | inr was ↦ absurd ((o token was).0 new)
  ];
}
  where
    entry :
        (token : Bytes) (b : ℕ)
        → find_mqtt_session token s'.registry ≡ some b
        → ((s'.client_id ≡ token) × (s.self ≡ b)) ⊎ (find_mqtt_session token s.registry ≡ some b)
    entry token b e =
        added-find s'.client_id token s.self b s.registry
          (ap (find_mqtt_session token) (sym registry) ∙ e)

Verdict-Keeps :
    (s : Session) (m : Result (Session × ℕ))
    → s.status ≡ init_new
    → Verdict s.self s.registry m
    → Ends (λ done. Keeps s done.0) m
Verdict-Keeps s (ok (s', rc)) new (inl a) = accepted-Keeps s s' new a
Verdict-Keeps s (ok (s', rc)) new (inr (status, failed, registry, self, timer)) =
    removed-Keeps s s' s'.client_id self registry (λ o token e. absurd ((o token e).0 new))
Verdict-Keeps s thrown new v = tt
Verdict-Keeps s overrun new v = tt
Verdict-Keeps s stuck new v = tt

-- The end of a session by the server.
disconnected-Keeps : (s : Session) → Keeps s (server_disconnect s)
unfolding server_disconnect
disconnected-Keeps s = removed-Keeps s (server_disconnect s) s.client_id refl refl (λ o. o)

connect-Keeps :
    (J : Json) (p : MqttPacket) (s : Session) → Ends (λ done. Keeps s done.0) (handle_connect J p s)
connect-Keeps J p s = elim (Bool-cases (is_init_new s.status)) [
  | inl e ↦
      let new = is_init_new→eq s.status e in
      Verdict-Keeps s (handle_connect J p s) new (handle_connect-Verdict J p s new)
  | inr e ↦ rw (handle_connect-again J p s e) (
      Keeps-trans s (emit refreshes s) (server_disconnect (emit refreshes s))
        (Keeps-core s (emit refreshes s) (refl, refl, refl, refl))
        (disconnected-Keeps (emit refreshes s)))
]

handle_disconnect-Keeps : (s : Session) → Keeps s (handle_disconnect s).0
unfolding handle_disconnect server_disconnect
handle_disconnect-Keeps s =
    removed-Keeps s (handle_disconnect s).0 s.client_id refl refl
      (λ o token e. (λ new. cc, (o token e).1))

handle_pingreq-core : (s : Session) → SameCore s (handle_pingreq s).0
unfolding handle_pingreq
handle_pingreq-core s = ground arith

pub packet_handle-Keeps :
    (J : Json) (p : MqttPacket) (s : Session) → Ends (λ done. Keeps s done.0) (packet_handle J p s)
unfolding packet_handle
packet_handle-Keeps J p s =
    Ends-if (λ done. Keeps s done.0) (high_nibble p.command == Command.pingreq) _ _
      (λ e. Keeps-core s (handle_pingreq s).0 (handle_pingreq-core s))
      (λ e.
        Ends-if (λ done. Keeps s done.0) (high_nibble p.command == Command.connect) _ _
          (λ e. connect-Keeps J p s)
          (λ e.
            Ends-if (λ done. Keeps s done.0) (high_nibble p.command == Command.disconnect) _ _
              (λ e. handle_disconnect-Keeps s) (λ e. Keeps-core s s (refl, refl, refl, refl))))
