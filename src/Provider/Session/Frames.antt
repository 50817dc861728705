-- ===== src/Provider/Session/Frames.antt =====
-- The receive loop of SslSvrSession.cpp against the push messages that a provider wrote.
use pushserver.Prelude.{
  ℕ, suc, ◌+◌, ◌/◌, ◌%◌, ◌^◌, ◌≤◌, ◌<◌, ◌≡◌, refl, ap, ◌∙◌, List, [], ◌∷◌, ◌++◌, Bytes, Result, ok,
  ◌>>=◌, arith, length, drop, take_else, bind_known, lt→leb, le→leb, le→ltb, length-append,
  take-append, drop-append_at, get_elem?-append_at, get_elem?-append_after,
}
use mathlib.Core.Path.{ap₂}
use pushserver.Json.{Json}
use pushserver.Mqtt.Packet.Code
use pushserver.Provider.Packet.{ProviderPacket}
use pushserver.Provider.Session.{
  World, slice, byte_at, uint16, packet_handle, finish_recv_msg, build, process_payload,
  process_recv_msg,
}

-- A push message as the provider means it.
pub record Push : Type 0 where
  pub command : ℕ
  pub token : Bytes
  pub payload : Bytes

-- A length in two bytes, and what it counts.
abbrev pub counted : Bytes → Bytes → Bytes
counted bytes tail = (length bytes / 2 ^ 8) ∷ (length bytes % 2 ^ 8) ∷ (bytes ++ tail)

-- The command, then the token and the payload, each behind its length.
abbrev pub push_bytes : Push → Bytes
push_bytes f = f.command ∷ counted f.token (counted f.payload [])

abbrev pub stream : List Push → Bytes
stream [] = []
stream (f ∷ fs) = push_bytes f ++ stream fs

-- The lengths fit in their two bytes.
abbrev pub IsFramed : Push → Type 0
IsFramed f = (f.command < 2 ^ 8) × (length f.token < 2 ^ 16) × (length f.payload < 2 ^ 16)

-- Device tokens have 32 bytes.
abbrev pub IsPush : Push → Type 0
IsPush f = IsFramed f × (length f.token ≡ 32)

abbrev pub packet_of : Push → ProviderPacket
packet_of f = record {
  command = f.command;
  token_length = length f.token;
  token = f.token;
  payload_length = length f.payload;
  payload = f.payload;
}

-- The messages handed over one after the other.
unfoldable pub run_pushes : Json → List Push → World → Result (World × ℕ)
run_pushes J [] w = ok (w, Code.success)
run_pushes J (f ∷ fs) w = do w' ← packet_handle J (packet_of f) w; run_pushes J fs w'

-- The buffer with the parts of the message side by side.
abbrev pub parts : Push → Bytes → Bytes
parts f tail = f.command ∷ counted f.token (counted f.payload tail)

abbrev pub used : Push → ℕ
used f = length f.payload + 2 + length f.token + 2 + 1

pub uint16_parts : (n : ℕ) → n < 2 ^ 16 → uint16 (n / 2 ^ 8) (n % 2 ^ 8) ≡ n
uint16_parts n h = omega arith

module _ (f : Push) (tail : Bytes) where
  pub length-parts : length (parts f tail) ≡ used f + length tail
  length-parts =
      omega (arith, length-append f.token (counted f.payload tail), length-append f.payload tail)

  slice_token : slice (parts f tail) 3 (length f.token) ≡ ok f.token
  slice_token =
      rw (le→leb (3 + length f.token) (length (parts f tail)) (omega (arith, length-parts)))
        (ap ok (take-append f.token _))

  byte_high : byte_at (parts f tail) (3 + length f.token) ≡ ok (length f.payload / 2 ^ 8)
  byte_high =
      ap (byte_at (parts f tail)) {x = 3 + length f.token} {y = suc (suc (suc (length f.token)))}
        (omega arith)
      ∙ rw (get_elem?-append_at f.token (length f.token) _ _ refl, byte_at)

  byte_low : byte_at (parts f tail) (4 + length f.token) ≡ ok (length f.payload % 2 ^ 8)
  byte_low =
      ap (byte_at (parts f tail)) {x = 4 + length f.token}
        {y = suc (suc (suc (suc (length f.token))))} (omega arith)
      ∙ rw (get_elem?-append_after f.token (suc (length f.token)) _ _ _ refl, byte_at)

  behind_token : drop (5 + length f.token) (parts f tail) ≡ f.payload ++ tail
  behind_token =
      ap (λ n. drop n (parts f tail)) {x = 5 + length f.token}
        {y = suc (suc (suc (suc (suc (length f.token)))))} (omega arith)
      ∙ drop-append_at f.token (suc (suc (length f.token))) _ 2 (omega arith)

  slice_payload : slice (parts f tail) (5 + length f.token) (length f.payload) ≡ ok f.payload
  slice_payload =
      rw
        (le→leb (5 + length f.token + length f.payload) (length (parts f tail))
          (omega (arith, length-parts)))
        (rw behind_token (ap ok (take-append f.payload tail)))

  payload_step :
      (J : Json) (n_len : ℕ) (w : World)
      → IsFramed f
      → length f.payload + 35 ≤ n_len
      → process_payload J
          (parts f tail)
          n_len
          f.command
          (length f.token)
          f.token
          (length f.payload)
          w
        ≡ (packet_handle J (packet_of f) w >>= finish_recv_msg (parts f tail) n_len (used f))
  unfolding process_payload
  payload_step J n_len w h room =
      take_else _ _ (le→ltb n_len (length f.payload + 35) room)
      ∙ bind_known _ slice_payload
      ∙ ap (λ p. packet_handle J p w >>= finish_recv_msg (parts f tail) n_len (used f)) built
    where
      built : build f.command (length f.token) f.token (length f.payload) f.payload ≡ packet_of f
      built = ground arith

  -- The message is taken apart where the provider put it together.
  pub recv_parts :
      (J : Json) (n_len : ℕ) (w : World)
      → IsFramed f
      → 35 < n_len
      → length f.payload + 35 ≤ n_len
      → process_recv_msg J (parts f tail) n_len w
        ≡ (packet_handle J (packet_of f) w >>= finish_recv_msg (parts f tail) n_len (used f))
  unfolding process_recv_msg
  recv_parts J n_len w h long room =
      take_else _ _ (lt→leb n_len 35 long)
      ∙ bind_known _ (ap (slice (parts f tail) 3) token_size ∙ slice_token)
      ∙ bind_known _ (ap (λ t. byte_at (parts f tail) (3 + t)) token_size ∙ byte_high)
      ∙ bind_known _ (ap (λ t. byte_at (parts f tail) (4 + t)) token_size ∙ byte_low)
      ∙ ap₂ (λ t n. process_payload J (parts f tail) n_len f.command t f.token n w) token_size
          (uint16_parts (length f.payload) h.2)
      ∙ payload_step J n_len w h room
    where
      token_size : uint16 (length f.token / 2 ^ 8) (length f.token % 2 ^ 8) ≡ length f.token
      token_size = uint16_parts (length f.token) h.1
