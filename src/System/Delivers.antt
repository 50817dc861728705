-- ===== src/System/Delivers.antt =====
-- What a push message does to the sessions of the devices: SslSvrSession.cpp and MqttServer.cpp.
use pushserver.Prelude.{
  ℕ, codes, ◌≡◌, ◌⊎◌, refl, sym, ap, ◌∙◌, inl, inr, false, Option, some, none, Bytes, or_throw,
  Ends, Ends-bind, Ends-any, arith, Bool-cases, ◌==◌, ==_iff, take_then, take_else,
}
use pushserver.Json.{Json}
use pushserver.Mqtt.Registry.{find_mqtt_session}
use pushserver.Mqtt.Session.{Session, send_publish, send_or_queue}
use pushserver.Mqtt.Framing.Keeps.{SameCore}
use pushserver.Provider.Packet.{ProviderPacket}
use pushserver.Provider.Session.{
  World, store, app_id, deliver_to, deliver, handle_parsed, packet_handle,
}

-- What a push message for a token does: the registry stays, and at most the session that is
-- registered for the token changes, which stays who it is.
abbrev pub Delivers : Bytes → World → World → Type 0
Delivers token w w' =
    (w'.registry ≡ w.registry)
    × ((b : ℕ)
        → (w'.sessions b ≡ w.sessions b)
          ⊎ ((d d' : Session) × (find_mqtt_session token w.registry ≡ some b)
              × (w.sessions b ≡ some d)
              × (w'.sessions b ≡ some d')
              × SameCore d d'))

send_publish-core :
    (message : Bytes) (s : Session)
    → Ends (λ done. SameCore s done.0) (send_publish 1 message 0 false false s)
unfolding send_publish send_or_queue
send_publish-core message s = ground arith

store-Delivers :
    (token : Bytes) (a : ℕ) (d d' : Session) (w : World)
    → find_mqtt_session token w.registry ≡ some a
    → w.sessions a ≡ some d
    → SameCore d d'
    → Delivers token w (store a d' w)
store-Delivers token a d d' w found live core = (
  refl,
  λ b. elim (Bool-cases (a == b)) [
    | inl e ↦
        let a=b = (==_iff a b).0 e in
        inr (d, d', found ∙ ap some a=b, ap w.sessions (sym a=b) ∙ live, take_then _ _ e, core)
    | inr e ↦ inl (take_else _ _ e)
  ],
)

deliver_to-Delivers :
    (token message : Bytes) (w : World) (a : ℕ) (o : Option Session)
    → find_mqtt_session token w.registry ≡ some a
    → w.sessions a ≡ o
    → Ends (Delivers token w) (deliver_to a o message w)
unfolding deliver_to
deliver_to-Delivers token message w a none found live = tt
deliver_to-Delivers token message w a (some s) found live =
    Ends-bind (λ done. SameCore s done.0) (Delivers token w)
      (send_publish 1 message 0 false false s) _ (send_publish-core message s)
      (λ done core. store-Delivers token a s done.0 w found live core)

deliver-Delivers :
    (token message : Bytes) (w : World) (o : Option ℕ)
    → find_mqtt_session token w.registry ≡ o
    → Ends (Delivers token w) (deliver o message w)
unfolding deliver
deliver-Delivers token message w none found = (refl, λ b. inl refl)
deliver-Delivers token message w (some a) found =
    deliver_to-Delivers token message w a (w.sessions a) found refl

parsed-Delivers :
    (J : Json) (parsed : Option J.Value) (p : ProviderPacket) (w : World)
    → Ends (Delivers p.token w) (handle_parsed J parsed p w)
unfolding handle_parsed
parsed-Delivers J none p w = (refl, λ b. inl refl)
parsed-Delivers J (some root) p w =
    Ends-bind (λ root'. Unit) (Delivers p.token w)
      (or_throw (J.set root (codes "appid") (J.of_string app_id))) _
      (Ends-any (λ root'. Unit) _ (λ root'. tt))
      (λ root' h.
        deliver-Delivers p.token (J.write root') w (find_mqtt_session p.token w.registry) refl)

pub packet_handle-Delivers :
    (J : Json) (p : ProviderPacket) (w : World) → Ends (Delivers p.token w) (packet_handle J p w)
unfolding packet_handle
packet_handle-Delivers J p w = parsed-Delivers J (J.parse p.payload) p w
