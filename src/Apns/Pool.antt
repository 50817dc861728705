-- ===== src/Apns/Pool.antt =====
-- `ApsApnsClientPool::PushNotification`, ApsApnsClientPool.cpp: a notification gets the next message
-- id and goes to the advance client.
pub mod Run
use pushserver.Prelude.{
  ℕ, ◌+◌, ◌%◌, ◌^◌, ◌≤◌, ◌<◌, ◌≡◌, sym, ap, ◌∙◌, [], ◌∷◌, ◌++◌, some, Bytes, c_str_id, IsCString,
  IsByte, All, Result, ok, ◌>>=◌, arith, length, take, le→ltb, take_else, bind_known, take-append,
  append-nil,
}
use pushserver.Apns.Hex.{to_hex, hex2chr-to_hex}
use pushserver.Apns.Message.{
  Message, set_command, set_id, set_expiry, set_device_token, set_payload, aps_text,
  get_request_message,
}
use pushserver.Apns.Format.{read_message, read-get_enhanced}
use pushserver.Apns.Client.{Client, send_request, on_publish, on_send_message}

-- The static counter of the messages, and the advance client.
pub record Pool : Type 0 where
  pub message_id : ℕ
  pub advance : Client

-- A `new_message` is what was in memory, as is `memory`.
unfoldable pub push_notification : Message → Bytes → Bytes → Bytes → Pool → Result Pool
unfolding set_device_token set_payload on_publish
push_notification new_message memory token msg pool =
    let id = (pool.message_id + 1) % 2 ^ 32 in
    do
      m ← set_device_token memory token (set_expiry 100 (set_id id (set_command 1 new_message)))
      m' ← set_payload msg m
      client ← on_publish m' pool.advance
      ok (record { message_id = id; advance = client })

pub to_hex-IsCString : (bs : Bytes) → IsCString (to_hex bs)
unfolding to_hex
to_hex-IsCString [] = tt
to_hex-IsCString (b ∷ bs) = (ground arith, (ground arith, to_hex-IsCString bs))

set_device_token-to_hex :
    (memory bs : Bytes) (m : Message)
    → length bs ≡ 32
    → All IsByte bs
    → set_device_token memory (to_hex bs) m ≡ ok (record m { device_token = bs })
unfolding set_device_token
set_device_token-to_hex memory bs m h bytes =
    rw (c_str_id (to_hex bs) (to_hex-IsCString bs), hex2chr-to_hex bs bytes)
      (take_else _ _ (le→ltb 32 (length bs) (omega arith))
        ∙ ap (λ t. ok (record m { device_token = t }))
            (ap (λ n. take n (bs ++ memory)) (sym h) ∙ take-append bs memory))

-- The message as the provider means it.
abbrev pub notification : ℕ → Bytes → Bytes → Message
notification id bs msg = record {
  command = 1;
  id = id;
  expiry = 100;
  device_token = bs;
  payload = aps_text msg;
}

on_publish-on_send_message :
    (m : Message) (bytes : Bytes) (c : Client)
    → get_request_message m ≡ some bytes
    → length bytes ≤ 2048
    → on_publish m c ≡ ok (on_send_message bytes c)
unfolding on_publish send_request
on_publish-on_send_message m bytes c h small =
    ap (λ request. send_request request c) h ∙ take_else _ _ (le→ltb 2048 (length bytes) small)

-- For a 32-byte token in hexadecimal and a message whose `aps` object has less than 256 bytes,
-- pushing returns: the counter of the ids goes up by one, modulo 2^32, and at the end of the
-- client's messages there is a new one, which the service reads as this token, id, expiry and `aps`
-- object, and which ends where it says.
pub push_notification-read_message :
    (new_message : Message) (memory bs msg : Bytes) (pool : Pool)
    → length bs ≡ 32
    → All IsByte bs
    → length (aps_text msg) < 2 ^ 8
    → (bytes : Bytes) × (push_notification new_message memory (to_hex bs) msg pool
        ≡ ok (record {
          message_id = (pool.message_id + 1) % 2 ^ 32;
          advance = on_send_message bytes pool.advance;
        }))
      × (read_message bytes ≡ some (notification ((pool.message_id + 1) % 2 ^ 32) bs msg, []))
unfolding push_notification set_payload
push_notification-read_message new_message memory bs msg pool h byte short =
    let id = (pool.message_id + 1) % 2 ^ 32 in
    let (bytes, e, size, read) =
      read-get_enhanced (notification id bs msg) [] h short (omega arith) (omega arith) in
    (
      bytes,
      bind_known _ (
            set_device_token-to_hex memory bs
              (set_expiry 100 (set_id id (set_command 1 new_message))) h byte)
          ∙ bind_known _ (take_else _ _ (le→ltb 255 (length (aps_text msg)) (omega (arith, short))))
          ∙ bind_known _ (
              on_publish-on_send_message (notification id bs msg) bytes pool.advance e
                (omega (arith, size, short))),
      ap read_message (sym (append-nil bytes)) ∙ read,
    )
