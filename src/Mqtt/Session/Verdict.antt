-- ===== src/Mqtt/Session/Verdict.antt =====
-- What a CONNECT of any content leads to, and the invariant of a session, of MqttServer.cpp.
use pushserver.Prelude.{
  ℕ, ◌*◌, Option-cases, ◌≡◌, ◌≢◌, refl, ap, ◌⊎◌, inl, inr, List, ◌∷◌, true, false, none, some,
  Bytes, Option, Result, ok, thrown, overrun, stuck, ◌>>=◌, or_throw, arith, length, length-append,
  codes, ◌==◌, if◌then◌else◌, Bool-cases, strcmp_eq,
}
use pushserver.Json.{Json}
use pushserver.Mqtt.Packet.Code
use pushserver.Mqtt.Packet.{
  MqttPacket, init_new, connected, read_string, read_uint8, read_uint16, get_json_msg,
}
use pushserver.Mqtt.Registry.{Registry, add_mqtt_session, delete_mqtt_session}
use pushserver.Mqtt.Session.{
  Session, server_disconnect, Effect, sets_timeout, emit, refreshes, refuse, connect_user,
  connect_json, connect_keep_alive, connect_flag, connect_version, connect_name, handle_connect,
  is_init_new,
}

-- Accepted: connected under a token of 32 bytes, which the registry was offered.
abbrev pub Accepted : ℕ → Registry → Session → Type 0
Accepted self r s =
    (s.status ≡ connected)
    × (length s.client_id ≡ 32)
    × (s.registry ≡ (add_mqtt_session s.client_id self r).0)
    × (s.self ≡ self)

-- Refused: still new, the timer about to fire, and the registry without what was named.
abbrev pub Refused : ℕ → Registry → Session → ℕ → Type 0
Refused self r s rc =
    (s.status ≡ init_new)
    × (rc ≢ Code.success)
    × (s.registry ≡ (delete_mqtt_session s.client_id r).0)
    × (s.self ≡ self)
    × ((rest : List Effect) × (s.effects ≡ sets_timeout 1 ∷ rest))

abbrev pub Verdict : ℕ → Registry → Result (Session × ℕ) → Type 0
Verdict self r (ok (s, rc)) = Accepted self r s ⊎ Refused self r s rc
Verdict self r thrown = Unit {0}
Verdict self r overrun = ⊥
Verdict self r stuck = ⊥

-- A session that a CONNECT is being read for.
abbrev Fresh : ℕ → Registry → Session → Type 0
Fresh self r s = (s.self ≡ self) × (s.registry ≡ r) × (s.status ≡ init_new)

module _ (J : Json) (self : ℕ) (r : Registry) where
  refuse-Verdict :
      (result rc : ℕ) (s : Session)
      → rc ≢ Code.success
      → Fresh self r s
      → Verdict self r (refuse result rc s)
  unfolding connect_user
  refuse-Verdict result rc s h fresh = inr (ground arith, h, ground arith, ground arith, (_, refl))

  user-Verdict :
      (name : Bytes) (s : Session) → Fresh self r s → Verdict self r (connect_user J name s)
  unfolding connect_user
  user-Verdict name s fresh = elim (Bool-cases (length name == 16)) [
    | inl e ↦
        rw e
          (inl (ground arith, ground (arith, length-append name name), ground arith, ground arith))
    | inr e ↦ rw e (
        refuse-Verdict Code.conn_refused Code.protocol (record s { client_id = name }) (omega arith)
          fresh)
  ]

  -- The user name, unless the JSON library throws.
  lookup-Verdict :
      (field : Option J.Value) (s : Session)
      → Fresh self r s
      → Verdict self r
          (do value ← or_throw field; name ← or_throw (J.as_string value); connect_user J name s)
  lookup-Verdict none s fresh = tt
  lookup-Verdict (some value) s fresh = elim (Option-cases (J.as_string value)) [
    | inl e ↦ rw e tt
    | inr (name, e) ↦ rw e (user-Verdict name s fresh)
  ]

  parsed-Verdict :
      (parsed : Option J.Value) (s : Session)
      → Fresh self r s
      → Verdict self r (elim parsed [
        | none ↦ refuse Code.inval Code.protocol s
        | some root ↦ do
          field ← or_throw (J.get root (codes "username"))
          name ← or_throw (J.as_string field)
          connect_user J name s
      ])
  parsed-Verdict none s fresh = refuse-Verdict Code.inval Code.protocol s (omega arith) fresh
  parsed-Verdict (some root) s fresh = lookup-Verdict (J.get root (codes "username")) s fresh

  json-Verdict :
      (p : MqttPacket) (s : Session) → Fresh self r s → Verdict self r (connect_json J p s)
  unfolding connect_json
  json-Verdict p s fresh =
      parsed-Verdict (J.parse (get_json_msg p)) (emit (sets_timeout (s.keep_alive * 2000)) s) fresh

  keep_alive-Verdict :
      (p : MqttPacket) (s : Session) → Fresh self r s → Verdict self r (connect_keep_alive J p s)
  unfolding connect_keep_alive
  keep_alive-Verdict p s fresh =
      let word = read_uint16 p s.keep_alive in
      let s' = record s { keep_alive = word.value } in
      elim (Bool-cases (word.code == 0)) [
        | inl e ↦ rw e (json-Verdict word.packet s' fresh)
        | inr e ↦ rw e (refuse-Verdict Code.inval 1 s' (omega arith) fresh)
      ]

  flag-Verdict :
      (p : MqttPacket) (s : Session) → Fresh self r s → Verdict self r (connect_flag J p s)
  unfolding connect_flag
  flag-Verdict p s fresh =
      let num = read_uint8 p s.flag in
      let s' = record s { flag = num.value } in
      elim (Bool-cases (num.code == 0)) [
        | inl e ↦ rw e (keep_alive-Verdict num.packet s' fresh)
        | inr e ↦ rw e (refuse-Verdict Code.inval 1 s' (omega arith) fresh)
      ]

  version-Verdict :
      (p : MqttPacket) (s : Session) → Fresh self r s → Verdict self r (connect_version J p s)
  unfolding connect_version
  version-Verdict p s fresh =
      let num = read_uint8 p s.protocol_version in
      let s' = record s { protocol_version = num.value } in
      elim (Bool-cases (num.code == 0)) [
        | inl e ↦ rw e (flag-Verdict num.packet s' fresh)
        | inr e ↦ rw e (refuse-Verdict Code.inval 1 s' (omega arith) fresh)
      ]

  name-Verdict :
      (p : MqttPacket) (s : Session) → Fresh self r s → Verdict self r (connect_name J p s)
  unfolding connect_name
  name-Verdict p s fresh =
      let str = read_string p s.protocol_name in
      let s' = record s { protocol_name = str.value } in
      elim (Bool-cases (str.code == 0)) [
        | inl e ↦ elim (Bool-cases (length str.value == 0)) [
          | inl e' ↦ rw (e, e') (refuse-Verdict Code.protocol 3 s' (omega arith) fresh)
          | inr e' ↦ elim (Bool-cases (strcmp_eq str.value (codes "MQIsdp"))) [
            | inl e'' ↦ rw (e, e', e'') (version-Verdict str.packet s' fresh)
            | inr e'' ↦
                rw (e, e', e'') (refuse-Verdict Code.protocol Code.protocol s' (omega arith) fresh)
          ]
        ]
        | inr e ↦ rw e (refuse-Verdict Code.protocol 1 s' (omega arith) fresh)
      ]

-- A CONNECT to a session that has had one.
abbrev pub again : Session → Result (Session × ℕ)
again s = ok (server_disconnect (emit refreshes s), Code.protocol)

handle_connect_new :
    (J : Json) (p : MqttPacket) (s : Session)
    → is_init_new s.status ≡ true
    → handle_connect J p s ≡ connect_name J p (emit refreshes s)
unfolding handle_connect
handle_connect_new J p s new =
    ap (λ b. if b then connect_name J p (emit refreshes s) else again s) new

pub handle_connect-again :
    (J : Json) (p : MqttPacket) (s : Session)
    → is_init_new s.status ≡ false
    → handle_connect J p s ≡ again s
unfolding handle_connect
handle_connect-again J p s old =
    ap (λ b. if b then connect_name J p (emit refreshes s) else again s) old

-- A CONNECT to a new session, whatever its bytes, either connects it under a token of 32 bytes that
-- the registry is offered, or leaves it new with an error result, the timer set to fire and the
-- name it gave taken from the registry; or the JSON library throws.
pub handle_connect-Verdict :
    (J : Json) (p : MqttPacket) (s : Session)
    → s.status ≡ init_new
    → Verdict s.self s.registry (handle_connect J p s)
handle_connect-Verdict J p s new =
    rw (handle_connect_new J p s (rw new))
      (name-Verdict J s.self s.registry p (emit refreshes s) (refl, refl, new))
