-- ===== src/System/Reuse.antt =====
-- What becomes of a device's entry in the registry behind the end of its session by a timeout or a
-- lost connection: MqttServer.cpp and SslSvrSession.cpp.
use pushserver.Prelude.{
  ℕ, ◌≤◌, ◌≡◌, refl, sym, ap, ◌∙◌, inl, inr, [], true, some, codes, ok, overrun, List, subst, arith,
  length, take_then, take_else, ==_iff, ==_ne, none, ◌≢◌,
}
use pushserver.Json.{Json}
use pushserver.Mqtt.Packet.{MqttPacket, init_new, connected}
use pushserver.Mqtt.Registry.{find_mqtt_session, find-add}
use pushserver.Mqtt.Session.{Session, sends, emit, handle_connect}
use pushserver.Mqtt.Session.Verdict.{Verdict, handle_connect-Verdict}
use pushserver.Mqtt.Framing.Frames.{frame_bytes}
use pushserver.Mqtt.Publish.{publish_frame}
use pushserver.Mqtt.Run.{Turn, Events, run}
use pushserver.Provider.Packet.{ProviderPacket}
use pushserver.Provider.Session.{World, store, app_id, packet_handle, deliver, deliver_to}
use pushserver.Provider.Session.Deliver.{reach_deliver, packet_handle_sends}
use pushserver.System.{new_mqtt_server, accept_device, forget, run_device, after_run}

-- A push message for an entry whose object is gone.
dead_called :
    (J : Json) (p : ProviderPacket) (w : World) (root root' : J.Value)
    → J.parse p.payload ≡ some root
    → J.set root (codes "appid") (J.of_string app_id) ≡ some root'
    → (a : ℕ) → find_mqtt_session p.token w.registry ≡ some a
    → w.sessions a ≡ none
    → packet_handle J p w ≡ overrun
unfolding deliver deliver_to
dead_called J p w root root' parsed marked a found dead =
    reach_deliver J p w root root' parsed marked
    ∙ ap (λ o. deliver o (J.write root') w) found
    ∙ ap (λ o. deliver_to a o (J.write root') w) dead

module _ (J : Json) (p : ProviderPacket) (w : World) (root root' : J.Value)
    (parsed : J.parse p.payload ≡ some root)
    (marked : J.set root (codes "appid") (J.of_string app_id) ≡ some root') (a : ℕ) (d : Session)
    (found : find_mqtt_session p.token w.registry ≡ some a) where
  -- The session ends by a timeout, and its object is deleted.
  timed_out :
      (holders : ℕ) (ts : List Turn) (ev : Events)
      → ev.timeout ≡ true
      → run_device J holders ts ev a d w ≡ ok (forget a w)
  unfolding run_device run after_run
  timed_out holders ts ev h = rw h refl

  -- A push message for its token then calls the deleted object.
  deleted_called : packet_handle J p (forget a w) ≡ overrun
  deleted_called =
      dead_called J p (forget a w) root root' parsed marked a found
        (take_then _ _ ((==_iff a a).1 refl))

  -- The next device gets an object at the same address.
  abbrev pub reused : Session → World
  reused memory = store a (new_mqtt_server a memory) (forget a w)

  -- For a session object that the registry has for a token, whatever else holds: a call of `Run`
  -- for a timeout returns, deletes the object and leaves the entry. A push message for this token,
  -- in JSON that takes the application's id as a member, then calls the deleted object; and once a
  -- new device's object has got its address, it is sent to this device as a PUBLISH packet, though
  -- it has sent no CONNECT, where the JSON with the id is at most 125 bytes and the new socket
  -- takes it.
  pub packet_handle-reused :
      (holders : ℕ) (ts : List Turn) (ev : Events) (memory : Session)
      → ev.timeout ≡ true
      → memory.outcomes ≡ []
      → length (J.write root') ≤ 125
      → (run_device J holders ts ev a d w ≡ ok (forget a w))
        × (packet_handle J p (forget a w) ≡ overrun)
        × (accept_device a memory (forget a w) ≡ reused memory)
        × (packet_handle J p (reused memory)
            ≡ ok (
                store a
                  (emit
                    (sends (frame_bytes (publish_frame 1 (J.write root'))))
                    (new_mqtt_server a memory))
                  (reused memory)))
  unfolding accept_device
  packet_handle-reused holders ts ev memory timeout free short = (
    timed_out holders ts ev timeout,
    deleted_called,
    refl,
    packet_handle_sends J p (reused memory) root root' parsed marked a (new_mqtt_server a memory)
        found (take_then _ _ ((==_iff a a).1 refl)) free short,
  )

-- A device that connects again under a token whose entry is still there is connected, but the entry
-- stays that of the session before.
pub handle_connect-find_mqtt_session :
    (J : Json) (p : MqttPacket) (s s' : Session) (rc a : ℕ)
    → s.status ≡ init_new
    → handle_connect J p s ≡ ok (s', rc)
    → s'.status ≡ connected
    → find_mqtt_session s'.client_id s.registry ≡ some a
    → find_mqtt_session s'.client_id s'.registry ≡ some a
handle_connect-find_mqtt_session J p s s' rc a new e accepted held =
    stays (subst (Verdict s.self s.registry) e (handle_connect-Verdict J p s new))
  where
    stays :
        Verdict s.self s.registry (ok (s', rc))
        → find_mqtt_session s'.client_id s'.registry ≡ some a
    stays (inl (status, size, registry, self)) =
        let added = find-add s'.client_id s'.client_id s.self s.registry in
        ap (find_mqtt_session s'.client_id) registry ∙ ground (arith, added, held)
    stays (inr refused) = absurd (ground (arith, accepted, refused.0))

-- A device whose token the registry still has for a deleted object, and which connects with a new
-- session at another address and is accepted, is not reached: a push message for its token, in JSON
-- that takes the application's id as a member, still calls the deleted object.
pub packet_handle-reconnected :
    (J : Json) (p : ProviderPacket) (w : World) (root root' : J.Value)
    → J.parse p.payload ≡ some root
    → J.set root (codes "appid") (J.of_string app_id) ≡ some root'
    → (a : ℕ) → find_mqtt_session p.token w.registry ≡ some a
    → w.sessions a ≡ none
    → (q : MqttPacket) (b : ℕ) (s s' : Session) (rc : ℕ) → b ≢ a
    → s.status ≡ init_new
    → handle_connect J q (record s { registry = w.registry }) ≡ ok (s', rc)
    → s'.status ≡ connected
    → s'.client_id ≡ p.token
    → packet_handle J p (store b s' (record w { registry = s'.registry })) ≡ overrun
packet_handle-reconnected J p w root root' parsed marked a found dead q b s s' rc apart new e on
      same =
    dead_called J p (store b s' (record w { registry = s'.registry })) root root' parsed marked a
      (ap (λ t. find_mqtt_session t s'.registry) (sym same)
        ∙ handle_connect-find_mqtt_session J q (record s { registry = w.registry }) s' rc a new e on
            (ap (λ t. find_mqtt_session t w.registry) same ∙ found))
      (take_else _ _ (==_ne b a apart) ∙ dead)
