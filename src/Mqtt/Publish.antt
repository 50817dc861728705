-- ===== src/Mqtt/Publish.antt =====
-- `MqttServer::mqtt_send_publish` of MqttServer.cpp against the packets of the protocol.
use pushserver.Prelude.{
  ℕ, suc, ◌+◌, ◌/◌, ◌%◌, ◌^◌, ◌≤◌, ◌<◌, ◌≡◌, ◌≢◌, ap, ◌∙◌, ◌∷◌, false, Bytes, ok, arith, length,
  le→ltb, take_else,
}
use mathlib.Core.Path.{ap₂}
use pushserver.Mqtt.Packet.Command
use pushserver.Mqtt.Session.{Session, send_or_queue, send_publish}
use pushserver.Mqtt.Framing.Frames.{Frame, frame_bytes}
use pushserver.Mqtt.Framing.Remaining.{encode_one, encode_two}

-- A PUBLISH without flags: the message id, and the message.
abbrev pub publish_frame : ℕ → Bytes → Frame
publish_frame mid payload = record {
  command = Command.publish;
  body = (mid / 2 ^ 8) ∷ (mid % 2 ^ 8) ∷ payload;
}

abbrev third : Bytes → ℕ
third (a ∷ b ∷ c ∷ rest) = c
third _ = 0

-- What is written for it.
abbrev pub publish_bytes : ℕ → Bytes → Bytes
publish_bytes mid payload =
    Command.publish
    ∷ ((length payload + 2) % 2 ^ 8)
    ∷ (mid / 2 ^ 8 % 2 ^ 8)
    ∷ (mid % 2 ^ 8)
    ∷ payload

module _ (mid : ℕ) (payload : Bytes) (s : Session) where
  pub send_publish-publish_bytes :
      length payload ≤ 2044
      → send_publish mid payload 0 false false s ≡ ok (send_or_queue (publish_bytes mid payload) s)
  unfolding send_publish
  send_publish-publish_bytes fits = take_else _ _ (le→ltb 2048 (4 + length payload) (omega arith))

  publish_bytes-frame_bytes :
      mid < 2 ^ 16
      → length payload ≤ 125
      → publish_bytes mid payload ≡ frame_bytes (publish_frame mid payload)
  publish_bytes-frame_bytes small short =
      rw (encode_one (suc (suc (length payload))) (omega arith))
        (ap₂ (λ a b. Command.publish ∷ a ∷ b ∷ (mid % 2 ^ 8) ∷ payload) (omega arith) (omega arith))

  -- A message of at most 125 bytes, with a message id of 16 bits, is sent, or queued where the
  -- socket refuses it, as the packet of the protocol that has it behind the message id.
  pub send_publish-frame_bytes :
      mid < 2 ^ 16
      → length payload ≤ 125
      → send_publish mid payload 0 false false s
        ≡ ok (send_or_queue (frame_bytes (publish_frame mid payload)) s)
  send_publish-frame_bytes small short =
      send_publish-publish_bytes (omega arith)
      ∙ ap (λ bytes. ok (send_or_queue bytes s)) (publish_bytes-frame_bytes small short)

  differ :
      mid < 2 ^ 8
      → 126 ≤ length payload
      → length payload ≤ 2044
      → third (publish_bytes mid payload) ≢ third (frame_bytes (publish_frame mid payload))
  differ small long fits =
      rw (encode_two (suc (suc (length payload))) (omega arith) (omega arith)) (omega arith)

  -- A longer message, of up to 2044 bytes, is sent as other bytes than its packet's, where the
  -- message id is less than 256: its length needs two bytes, and the server writes one.
  pub send_publish_misframed :
      mid < 2 ^ 8
      → 126 ≤ length payload
      → length payload ≤ 2044
      → (bytes : Bytes) × (send_publish mid payload 0 false false s ≡ ok (send_or_queue bytes s))
        × (bytes ≢ frame_bytes (publish_frame mid payload))
  send_publish_misframed small long fits = (
    publish_bytes mid payload,
    send_publish-publish_bytes fits,
    λ e. differ small long fits (ap third e),
  )
