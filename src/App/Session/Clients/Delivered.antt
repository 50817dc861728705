-- ===== src/App/Session/Clients/Delivered.antt =====
-- What a publish request to all devices of a user leaves at the two clients.
use pushserver.Prelude.{
  ◌^◌, ◌≤◌, ◌<◌, ◌≡◌, refl, sym, ap, ◌∙◌, List, [], ◌∷◌, map, Bool, true, false, some, Bytes, codes,
  c_str, c_str_id, All, ok, length, arith, bind_known, Bool-cases, inl, inr, append_assoc,
  append-nil,
}
use mathlib.Core.Path.{ap₂}
use pushserver.Json.{Json}
use pushserver.Redis.{Redis}
use pushserver.Apns.Hex.{to_hex}
use pushserver.Apns.Message.{Message, aps_text}
use pushserver.Apns.Format.{read_message}
use pushserver.Apns.Client.{on_send_message}
use pushserver.Apns.Pool.{notification, to_hex-IsCString, push_notification-read_message}
use pushserver.Provider.Session.Frames.{push_bytes}
use pushserver.Provider.C2dm as C2dm
use pushserver.Provider.C2dm.Delivery.{message, sent_log, push_notification-sent_log}
use pushserver.App.Request.{Request}
use pushserver.App.Session.{Session, publish_all, push}
use pushserver.App.Session.Publish.{is_target, pushed, publish_to-pushed}
use pushserver.App.Session.Clients.{Clients, outcome, later, perform_push, perform}
use pushserver.App.Session.Clients.Device.{
  Device, apple, other, entry, IsDevice, next_id, sent_to, Delivered,
}

length-to_hex : (bs : Bytes) → length bs ≡ 32 → 0 < length (to_hex bs)
unfolding to_hex
length-to_hex [] h = absurd (omega (arith, h))
length-to_hex (b ∷ bs) h = omega arith

module _ {J : Json} (redis : Redis) (request : Request J) where
  publish_all-pushed :
      (token type : Bytes) (m : List (Bytes × Bytes)) (s s' : Session J) (flag : Bool)
      → 0 < length token
      → length (c_str type) < 240
      → publish_all J redis request m (pushed redis request token type s) ≡ ok (s', flag)
      → publish_all J redis request ((token, type) ∷ m) s ≡ ok (s', true)
  unfolding publish_all
  publish_all-pushed [] type m s s' flag some_ short e = absurd (omega arith)
  publish_all-pushed (b ∷ bs) type m s s' flag some_ short e =
      bind_known _ (publish_to-pushed redis request (b ∷ bs) type s short) ∙ bind_known _ e

  module _ (new_message : Message) (memory ios android : Bytes)
      (ios_text : c_str (J.write request.ios) ≡ ios)
      (android_text : c_str (J.write request.android) ≡ android)
      (ios_fits : length (aps_text ios) < 2 ^ 8) (android_fits : length android ≤ 247)
      (c : Clients) where
    -- Publishing to devices from a session, whose pushes so far leave the clients `c0`.
    abbrev Publishes : List Device → Session J → Clients → Type 0
    Publishes devices s c0 =
        (s' : Session J) × (flag : Bool) × (c1 : Clients) × (publish_all J redis request
            (map entry devices) s
          ≡ ok (s', flag))
        × (perform new_message memory s'.log c ≡ ok c1)
        × Delivered redis ios android devices c0 c1

    abbrev PublishesRest : List Device → Type 0
    PublishesRest devices =
        (s : Session J) (c0 : Clients)
        → perform new_message memory s.log c ≡ ok c0
        → Publishes devices s c0

    perform-apple :
        (bs : Bytes) (s : Session J) (c0 : Clients)
        → IsDevice (apple bs)
        → perform new_message memory s.log c ≡ ok c0
        → (bytes : Bytes) × (perform new_message memory
              (push J request (to_hex bs) (codes "ios") s).log
              c
            ≡ ok (record c0 {
              pool = record {
                message_id = next_id c0.pool.message_id;
                advance = on_send_message bytes c0.pool.advance;
              };
            }))
          × (read_message bytes ≡ some (notification (next_id c0.pool.message_id) bs ios, []))
    unfolding perform perform_push
    perform-apple bs s c0 h so_far =
        let (bytes, e, read) =
          push_notification-read_message new_message memory bs ios c0.pool h.0 h.1 ios_fits in
        (bytes, rw (so_far, c_str_id (to_hex bs) (to_hex-IsCString bs), ios_text, e) refl, read)

    perform-other :
        (token type : Bytes) (s : Session J) (c0 : Clients)
        → IsDevice (other token type)
        → perform new_message memory s.log c ≡ ok c0
        → (client : C2dm.Client) × (perform new_message memory (push J request token type s).log c
            ≡ ok (record c0 { c2dm = client; outcomes = later c0.outcomes }))
          × (client.log
              ≡ sent_log (outcome c0.outcomes) (push_bytes (message token android)) c0.c2dm.log)
    unfolding perform perform_push
    perform-other token type s c0 h so_far =
        let (client, e, log) =
          push_notification-sent_log (outcome c0.outcomes) token android c0.c2dm h.0 android_fits in
        (client, rw (h.2, so_far, c_str_id token h.1, android_text, e) refl, log)

    -- One device, by whether it is pushed to.
    Publishes-apple :
        (bs : Bytes) (devices : List Device) (s : Session J) (c0 : Clients)
        → IsDevice (apple bs)
        → PublishesRest devices
        → perform new_message memory s.log c ≡ ok c0
        → Publishes (apple bs ∷ devices) s c0
    unfolding on_send_message
    Publishes-apple bs devices s c0 h rest so_far =
        elim (Bool-cases (is_target redis (to_hex bs) (codes "ios"))) [
          | inl e ↦
              let (bytes, performed, read) = perform-apple bs s c0 h so_far in
              let (s', flag, c1, e1, e2, ((more, m, q), l)) =
                rest (push J request (to_hex bs) (codes "ios") s) _ performed in
              (
                s',
                true,
                c1,
                publish_all-pushed (to_hex bs) (codes "ios") (map entry devices) s s' flag
                    (length-to_hex bs h.0) (omega arith) (rw e e1),
                e2,
                (
                  (
                    bytes ∷ more,
                    m ∙ append_assoc c0.pool.advance.messages (bytes ∷ []) more,
                    rw e (ap₂ (λ x xs. x ∷ xs) read q),
                  ),
                  l,
                ),
              )
          | inr e ↦
              let (s', flag, c1, e1, e2, ((more, m, q), l)) = rest s c0 so_far in
              (
                s',
                true,
                c1,
                publish_all-pushed (to_hex bs) (codes "ios") (map entry devices) s s' flag
                    (length-to_hex bs h.0) (omega arith) (rw e e1),
                e2,
                ((more, m, rw e q), l),
              )
        ]

    Publishes-other :
        (token type : Bytes) (devices : List Device) (s : Session J) (c0 : Clients)
        → IsDevice (other token type)
        → PublishesRest devices
        → perform new_message memory s.log c ≡ ok c0
        → Publishes (other token type ∷ devices) s c0
    Publishes-other token type devices s c0 h rest so_far =
        elim (Bool-cases (is_target redis token type)) [
          | inl e ↦
              let (client, performed, log) = perform-other token type s c0 h so_far in
              let (s', flag, c1, e1, e2, (queues, l)) =
                rest (push J request token type s) _ performed in
              (
                s',
                true,
                c1,
                publish_all-pushed token type (map entry devices) s s' flag (omega (arith, h.0)) h.3
                    (rw e e1),
                e2,
                (queues, rw e (l ∙ ap (sent_to redis ios android (later c0.outcomes) devices) log)),
              )
          | inr e ↦
              let (s', flag, c1, e1, e2, (queues, l)) = rest s c0 so_far in
              (
                s',
                true,
                c1,
                publish_all-pushed token type (map entry devices) s s' flag (omega (arith, h.0)) h.3
                    (rw e e1),
                e2,
                (queues, rw e l),
              )
        ]

    -- A publish request to all devices of a user, who has Apple devices, by 32-byte tokens in
    -- hexadecimal, and others, by tokens of 32 characters and types of less than 240 that are not
    -- ios: where the texts for the two platforms, up to their first NUL, are short enough (for
    -- Apple, less than 256 bytes with the aps object around it; for the others, at most 247), and
    -- the pushes of the session so far have left the clients in some state, the loop over the
    -- devices returns, and its pushes too are all performed. Behind the messages that waited for
    -- Apple's service there is then one for each Apple device whose token is not known to be
    -- invalid, in the order of the devices, which the service reads as this device's token, the
    -- text's aps object, the expiry 100 and the next id, the ids counting up by one modulo 2^32;
    -- and to the TLS listener one push message was sent for each valid other device, in their
    -- order, with the token and the text in an aps object, once, or again behind a restart where
    -- the first attempt failed.
    pub publish_all-perform :
        (devices : List Device) (s : Session J) (c0 : Clients)
        → All IsDevice devices
        → perform new_message memory s.log c ≡ ok c0
        → (s' : Session J) × (flag : Bool) × (c1 : Clients) × (publish_all J redis request
              (map entry devices)
              s
            ≡ ok (s', flag))
          × (perform new_message memory s'.log c ≡ ok c1)
          × Delivered redis ios android devices c0 c1
    unfolding publish_all
    publish_all-perform [] s c0 h so_far =
        (s, false, c0, refl, so_far, (([], sym (append-nil c0.pool.advance.messages), refl), refl))
    publish_all-perform (apple bs ∷ devices) s c0 h so_far =
        Publishes-apple bs devices s c0 h.0 (λ s1 c1. publish_all-perform devices s1 c1 h.1) so_far
    publish_all-perform (other token type ∷ devices) s c0 h so_far =
        Publishes-other token type devices s c0 h.0 (λ s1 c1. publish_all-perform devices s1 c1 h.1)
          so_far
