-- ===== src/Provider/C2dm/Delivery.antt =====
-- What PushC2DMClientSocket.cpp sends, and what SslSvrSession.cpp makes of it.
use pushserver.Prelude.{
  ℕ, ◌+◌, ◌/◌, ◌%◌, ◌^◌, ◌≤◌, ◌≡◌, refl, sym, ap, ◌∙◌, List, [], ◌∷◌, ◌++◌, Bool, true, false,
  Bytes, codes, ok, ◌>>=◌, arith, length, take, drop, le→ltb, take_else, bind_known, length-append,
  take-append, append-nil, if◌then◌else◌,
}
use mathlib.Core.Path.{ap₂}
use pushserver.Json.{Json}
use pushserver.Mqtt.Packet.Code
use pushserver.Provider.Session.{World, packet_handle, process_loop}
use pushserver.Provider.Session.Frames.{Push, push_bytes, counted, packet_of, run_pushes}
use pushserver.Provider.Session.Loop.{push_parts, push_length, process_loop-run_pushes}
use pushserver.Provider.C2dm.{
  Client, Effect, sends, restarts, payload_text, gen_payload_data, gen_push_data, send_data,
  push_notification,
}

-- The message as the client means it.
abbrev pub message : Bytes → Bytes → Push
message token msg = record { command = 0; token = token; payload = payload_text msg }

-- The log after a notification, whose first attempt failed or not.
abbrev pub sent_log : Bool → Bytes → List Effect → List Effect
sent_log true bytes log = sends bytes ∷ restarts ∷ sends bytes ∷ log
sent_log false bytes log = sends bytes ∷ log

text_length : (msg : Bytes) → length (payload_text msg) ≡ length msg + 8
text_length msg = omega (arith, length-append msg (codes "}"))

take_token : (token : Bytes) → length token ≡ 32 → take 32 (token ++ (0 ∷ [])) ≡ token
take_token token h = rw (sym h) (take-append token (0 ∷ []))

-- The bytes of both buffers, up to the end of the text.
take-message :
    (token msg slack : Bytes)
    → length token ≡ 32
    → take (35 + (length (payload_text msg) + 2)) (
        (0 ∷ 0 ∷ 32 ∷ token)
        ++ ((length (payload_text msg) / 2 ^ 8)
            ∷ (length (payload_text msg) % 2 ^ 8)
            ∷ (payload_text msg ++ slack)))
      ≡ push_bytes (message token msg)
take-message token msg slack h =
    ap₂
      (λ n t. take n (0 ∷ (t / 2 ^ 8) ∷ (t % 2 ^ 8) ∷ (token ++ counted (payload_text msg) slack)))
      size (sym h)
    ∙ ap (take (length (push_bytes (message token msg))))
        (sym (push_parts (message token msg) slack))
    ∙ take-append (push_bytes (message token msg)) slack
  where
    size : 35 + (length (payload_text msg) + 2) ≡ length (push_bytes (message token msg))
    size = omega (arith, push_length (message token msg))

-- The client once both buffers are written, and once they are sent.
abbrev written : Bytes → Bytes → Client → Client
written token msg c = record c {
  data_ = record {
    sz_token = 0 ∷ 0 ∷ 32 ∷ token;
    sz_payload =
        counted (payload_text msg) (0 ∷ drop (length (payload_text msg) + 3) c.data_.sz_payload);
  };
}

abbrev delivered : Bytes → Bytes → Client → Client
delivered token msg c = send_data (35 + (length (payload_text msg) + 2)) (written token msg c)

abbrev delivered_again : Bytes → Bytes → Client → Client
delivered_again token msg c =
    send_data (35 + (length (payload_text msg) + 2))
      (record (delivered token msg c) { log = restarts ∷ (delivered token msg c).log })

notification_written :
    (failed : Bool) (token msg : Bytes) (c : Client)
    → length token ≡ 32
    → length msg ≤ 247
    → push_notification failed token msg c
      ≡ ok (if failed then delivered_again token msg c else delivered token msg c)
unfolding push_notification gen_payload_data gen_push_data
notification_written failed token msg c h short =
    bind_known _
      (take_else _ _ (le→ltb 255 (length (payload_text msg)) (omega (arith, text_length msg))))
    ∙ bind_known _ (take_else _ _ (le→ltb (length token + 1) 32 (omega arith)))
    ∙ rw (take_token token h) refl

-- For a 32-byte token and a message of at most 247 bytes the client returns, and what it sends,
-- once, or again where the first attempt failed, is the push message for this token whose payload
-- is the message in an `aps` object.
pub push_notification-sent_log :
    (failed : Bool) (token msg : Bytes) (c : Client)
    → length token ≡ 32
    → length msg ≤ 247
    → (c' : Client) × (push_notification failed token msg c ≡ ok c')
      × (c'.log ≡ sent_log failed (push_bytes (message token msg)) c.log)
push_notification-sent_log failed token msg c h short =
    (_, notification_written failed token msg c h short, logged failed)
  where
    sent :
        take
          (35 + (length (payload_text msg) + 2))
          ((written token msg c).data_.sz_token ++ (written token msg c).data_.sz_payload)
        ≡ push_bytes (message token msg)
    sent = take-message token msg (0 ∷ drop (length (payload_text msg) + 3) c.data_.sz_payload) h

    logged :
        (b : Bool)
        → (if b then delivered_again token msg c else delivered token msg c).log
          ≡ sent_log b (push_bytes (message token msg)) c.log
    logged true = ap (λ bytes. sends bytes ∷ restarts ∷ sends bytes ∷ c.log) sent
    logged false = ap (λ bytes. sends bytes ∷ c.log) sent

-- What the client sends for a 32-byte token and a message of at most 247 bytes reaches the session
-- of SslSvrSession.cpp whole: with as much fuel as bytes, its receive loop hands over one packet,
-- which has this token and the message in an `aps` object, and uses up all bytes, whatever stands
-- behind them in the buffer.
pub sent-process_loop :
    (J : Json) (fuel : ℕ) (token msg slack : Bytes) (w : World)
    → length token ≡ 32
    → length msg ≤ 247
    → length msg + 45 ≤ fuel
    → process_loop fuel J (push_bytes (message token msg) ++ slack) (length msg + 45) w
      ≡ (packet_handle J (packet_of (message token msg)) w >>= λ w'. ok (w', Code.success))
unfolding run_pushes
sent-process_loop J fuel token msg slack w h short enough =
    ap₂ (λ b n. process_loop fuel J (b ++ slack) n w) (sym (append-nil (push_bytes f))) size
    ∙ process_loop-run_pushes J fuel (f ∷ []) slack w
        (((omega arith, omega arith, omega (arith, text_length msg)), h), tt) (omega (arith, size))
        (omega (arith, size))
  where
    f : Push
    f = message token msg

    size : length msg + 45 ≡ length (push_bytes f ++ [])
    size = omega (arith, push_length f, text_length msg, length-append (push_bytes f) [])
