-- ===== src/Provider/C2dm/Arrival.antt =====
-- From the C2DM client to the device: PushC2DMClientSocket.cpp, SslSvrSession.cpp and
-- MqttServer.cpp together.
use pushserver.Prelude.{
  ℕ, ◌+◌, ◌≤◌, ◌≡◌, ap, ◌∙◌, [], ◌++◌, Bool, some, Bytes, codes, ok, arith, length, length-append,
  bind_known,
}
use pushserver.Json.{Json}
use pushserver.Mqtt.Packet.Code
use pushserver.Mqtt.Registry.{find_mqtt_session}
use pushserver.Mqtt.Session.{Session, sends, emit}
use pushserver.Mqtt.Framing.Frames.{frame_bytes}
use pushserver.Mqtt.Publish.{publish_frame}
use pushserver.Provider.Session.{World, store, app_id, process_loop}
use pushserver.Provider.Session.Frames.{push_bytes, packet_of}
use pushserver.Provider.Session.Loop.{push_length}
use pushserver.Provider.Session.Deliver.{packet_handle_sends}
use pushserver.Provider.C2dm.{Client, payload_text, push_notification}
use pushserver.Provider.C2dm.Delivery.{
  message, sent_log, push_notification-sent_log, sent-process_loop,
}

module _ (J : Json) (token msg : Bytes) (w : World) (root root' : J.Value)
    (parsed : J.parse (payload_text msg) ≡ some root)
    (marked : J.set root (codes "appid") (J.of_string app_id) ≡ some root') where
  -- The device session that gets the message.
  abbrev pub reached : Session → Session
  reached d = emit (sends (frame_bytes (publish_frame 1 (J.write root')))) d

  length-message : length (push_bytes (message token msg)) ≡ length token + (length msg + 13)
  length-message = omega (arith, push_length (message token msg), length-append msg (codes "}"))

  -- A message of at most 247 bytes for a 32-byte token that is registered to a live device session,
  -- where its text in an `aps` object is JSON that takes the application's id as a member, and is
  -- then at most 125 bytes: the C2DM client returns and sends some bytes once, or again where the
  -- first attempt failed, and the receive loop of SslSvrSession.cpp on these bytes, with as much
  -- fuel as bytes, ends with success and has sent the JSON with the id to this session as one
  -- PUBLISH packet with the message id 1, where its socket takes it; no other session changes.
  pub push_notification-process_loop :
      (failed : Bool) (c : Client) (slack : Bytes) (fuel a : ℕ) (d : Session)
      → length token ≡ 32
      → length msg ≤ 247
      → length msg + 45 ≤ fuel
      → find_mqtt_session token w.registry ≡ some a
      → w.sessions a ≡ some d
      → d.outcomes ≡ []
      → length (J.write root') ≤ 125
      → (c' : Client) × (bytes : Bytes) × (push_notification failed token msg c ≡ ok c')
        × (c'.log ≡ sent_log failed bytes c.log)
        × (process_loop fuel J (bytes ++ slack) (length bytes) w
            ≡ ok (store a (reached d) w, Code.success))
  push_notification-process_loop failed c slack fuel a d h short enough found live free fits =
      let (c', returns, log) = push_notification-sent_log failed token msg c h short in
      let bytes = push_bytes (message token msg) in
      let size : length bytes ≡ length msg + 45 = omega (arith, length-message, h) in
      (
        c',
        bytes,
        returns,
        log,
        ap (λ n. process_loop fuel J (bytes ++ slack) n w) size
            ∙ sent-process_loop J fuel token msg slack w h short enough
            ∙ bind_known _ (
                packet_handle_sends J (packet_of (message token msg)) w root root' parsed marked a d
                  found live free fits),
      )
