-- ===== src/Provider/C2dm/Broadcast.antt =====
-- One text to several devices: what the push messages of PushC2DMClientSocket.cpp make
-- SslSvrSession.cpp send on the connections of MqttServer.cpp.
use pushserver.Prelude.{
  ℕ, zero, suc, ◌≤◌, ◌≡◌, refl, sym, ap, ◌∙◌, List, [], ◌∷◌, map, Bool, false, Option, none, some,
  Bytes, codes, ok, ◌==◌, ==_iff, if◌then◌else◌, length, All, bind_known, Bool-cases, inl, inr,
  take_then, take_else,
}
use mathlib.Core.Option.{some-injective}
use pushserver.Json.{Json}
use pushserver.Mqtt.Packet.Code
use pushserver.Mqtt.Registry.{Registry, find_mqtt_session}
use pushserver.Mqtt.Session.{Session, Effect, sends, emit}
use pushserver.Mqtt.Framing.Frames.{frame_bytes}
use pushserver.Mqtt.Publish.{publish_frame}
use pushserver.Provider.Session.{World, store, app_id}
use pushserver.Provider.Session.Frames.{packet_of, run_pushes}
use pushserver.Provider.Session.Deliver.{packet_handle_sends}
use pushserver.Provider.C2dm.{payload_text}
use pushserver.Provider.C2dm.Delivery.{message}

abbrev pub is_named : Option ℕ → ℕ → Bool
is_named none b = false
is_named (some a) b = a == b

-- How many of the tokens are registered to an address.
abbrev pub copies : Registry → List Bytes → ℕ → ℕ
copies r [] b = 0
copies r (t ∷ ts) b =
    if is_named (find_mqtt_session t r) b then suc (copies r ts b) else copies r ts b

abbrev pub emits : ℕ → Effect → Session → Session
emits zero e d = d
emits (suc n) e d = emits n e (emit e d)

-- The token is registered to a live session, whose socket takes what it is given.
abbrev pub IsReachable : World → Bytes → Type 0
IsReachable w t =
    (a : ℕ) × (d : Session) × (find_mqtt_session t w.registry ≡ some a)
    × (w.sessions a ≡ some d)
    × (d.outcomes ≡ [])

-- Each session has done something as often as there are tokens registered to it.
abbrev pub Broadcasts : Effect → List Bytes → World → World → Type 0
Broadcasts e tokens w w' =
    (w'.registry ≡ w.registry)
    × ((b : ℕ) (d : Session)
        → w.sessions b ≡ some d
        → w'.sessions b ≡ some (emits (copies w.registry tokens b) e d))

module _ (a : ℕ) (d : Session) (e : Effect) (w : World) (free : d.outcomes ≡ []) where
  abbrev done_at : World
  done_at = store a (emit e d) w

  IsReachable-store : (t : Bytes) → IsReachable w t → IsReachable done_at t
  IsReachable-store t (b, u, found, live, takes) = elim (Bool-cases (a == b)) [
    | inl same ↦ (b, emit e d, found, take_then _ _ same, free)
    | inr differ ↦ (b, u, found, take_else _ _ differ ∙ live, takes)
  ]

  Reachable-store : (ts : List Bytes) → All (IsReachable w) ts → All (IsReachable done_at) ts
  Reachable-store [] h = tt
  Reachable-store (t ∷ ts) h = (IsReachable-store t h.0, Reachable-store ts h.1)

  Broadcasts-store :
      (t : Bytes) (ts : List Bytes) (w' : World)
      → find_mqtt_session t w.registry ≡ some a
      → w.sessions a ≡ some d
      → Broadcasts e ts done_at w'
      → Broadcasts e (t ∷ ts) w w'
  Broadcasts-store t ts w' found live (registry, sessions) = (
    registry,
    λ b u was. elim (Bool-cases (a == b)) [
      | inl same ↦
          let u=d : d ≡ u =
            some-injective d u (sym live ∙ ap w.sessions ((==_iff a b).0 same) ∙ was) in
          rw (found, same)
            (sessions b (emit e d) (take_then _ _ same)
              ∙ ap (λ v. some (emits (copies w.registry ts b) e (emit e v))) u=d)
      | inr differ ↦ rw (found, differ) (sessions b u (take_else _ _ differ ∙ was))
    ],
  )

module _ (J : Json) (msg : Bytes) (root root' : J.Value)
    (parsed : J.parse (payload_text msg) ≡ some root)
    (marked : J.set root (codes "appid") (J.of_string app_id) ≡ some root')
    (short : length (J.write root') ≤ 125) where
  -- The PUBLISH packet.
  abbrev pub published : Effect
  published = sends (frame_bytes (publish_frame 1 (J.write root')))

  -- The push messages of one text for tokens that are all reachable are all handed over, and every
  -- session has sent the text as often as it is registered for one of the tokens.
  pub run_pushes-Broadcasts :
      (tokens : List Bytes) (w : World)
      → All (IsReachable w) tokens
      → (w' : World) × (run_pushes J (map (λ t. message t msg) tokens) w ≡ ok (w', Code.success))
        × Broadcasts published tokens w w'
  unfolding run_pushes
  run_pushes-Broadcasts [] w h = (w, refl, (refl, λ b d was. was))
  run_pushes-Broadcasts (t ∷ ts) w ((a, d, found, live, free), h) =
      let (w', e, b) =
        run_pushes-Broadcasts ts (store a (emit published d) w)
          (Reachable-store a d published w free ts h) in
      (
        w',
        bind_known _ (
              packet_handle_sends J (packet_of (message t msg)) w root root' parsed marked a d found
                live free short)
            ∙ e,
        Broadcasts-store a d published w free t ts w' found live b,
      )
