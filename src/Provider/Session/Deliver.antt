-- ===== src/Provider/Session/Deliver.antt =====
-- From a push message to the device's connection: `PacketHandle` of SslSvrSession.cpp,
-- `FindMqttSession` of MqttSessionHandler.cpp and `mqtt_send_publish` of MqttServer.cpp together.
use pushserver.Prelude.{
  ℕ, ◌≤◌, ◌≡◌, refl, ap, ◌∙◌, [], some, codes, ok, ◌>>=◌, or_throw, arith, length, bind_known,
}
use pushserver.Json.{Json}
use pushserver.Mqtt.Registry.{find_mqtt_session}
use pushserver.Mqtt.Session.{Session, sends, emit, send_or_queue}
use pushserver.Mqtt.Framing.Frames.{frame_bytes}
use pushserver.Mqtt.Publish.{publish_frame, send_publish-frame_bytes}
use pushserver.Provider.Packet.{ProviderPacket}
use pushserver.Provider.Session.{
  World, store, app_id, deliver_to, deliver, handle_parsed, packet_handle,
}

module _ (J : Json) (p : ProviderPacket) (w : World) (root root' : J.Value)
    (parsed : J.parse p.payload ≡ some root)
    (marked : J.set root (codes "appid") (J.of_string app_id) ≡ some root') where
  pub reach_deliver :
      packet_handle J p w ≡ deliver (find_mqtt_session p.token w.registry) (J.write root') w
  unfolding packet_handle handle_parsed
  reach_deliver =
      ap (λ o. handle_parsed J o p w) parsed
      ∙ ap (λ o. or_throw o >>= λ r. deliver (find_mqtt_session p.token w.registry) (J.write r) w)
          marked

  -- A push message whose payload is JSON that takes the application's id as a member, for a token
  -- that is registered to a live session: if the JSON with the id is at most 125 bytes and the
  -- socket takes it, it is sent on this session's connection as one PUBLISH packet with the message
  -- id 1, and no other session changes.
  pub packet_handle_sends :
      (a : ℕ) (d : Session)
      → find_mqtt_session p.token w.registry ≡ some a
      → w.sessions a ≡ some d
      → d.outcomes ≡ []
      → length (J.write root') ≤ 125
      → packet_handle J p w
        ≡ ok (store a (emit (sends (frame_bytes (publish_frame 1 (J.write root')))) d) w)
  unfolding deliver deliver_to send_or_queue
  packet_handle_sends a d found live free short =
      reach_deliver
      ∙ ap (λ o. deliver o (J.write root') w) found
      ∙ ap (λ o. deliver_to a o (J.write root') w) live
      ∙ bind_known _ (send_publish-frame_bytes 1 (J.write root') d (omega arith) short)
      ∙ ap (λ d'. ok (store a d' w)) taken
    where
      taken :
          (send_or_queue (frame_bytes (publish_frame 1 (J.write root'))) d).0
          ≡ emit (sends (frame_bytes (publish_frame 1 (J.write root')))) d
      taken = rw free refl
