-- ===== src/Provider/Packet.antt =====
-- ProviderPacket.h and ProviderPacket.cpp: one received push message.
use pushserver.Prelude.{ℕ, ◌%◌, ◌^◌, [], Bytes}

pub record ProviderPacket : Type 0 where
  pub command : ℕ
  pub token_length : ℕ
  pub token : Bytes
  pub payload_length : ℕ
  pub payload : Bytes

unfoldable pub reset : ProviderPacket → ProviderPacket
reset p = record p {
  command = 0xff;
  token = [];
  payload = [];
  token_length = 0;
  payload_length = 0;
}

-- Every member is set by `Reset`.
abbrev pub new_packet : ProviderPacket
new_packet = record {
  command = 0xff;
  token_length = 0;
  token = [];
  payload_length = 0;
  payload = [];
}

unfoldable pub set_command : ℕ → ProviderPacket → ProviderPacket × ℕ
set_command cmd p = (record p { command = cmd % 2 ^ 8 }, p.command)

-- The old length comes back through a `uint8_t`.
unfoldable pub set_token_length : ℕ → ProviderPacket → ProviderPacket × ℕ
set_token_length n p = (record p { token_length = n % 2 ^ 16 }, p.token_length % 2 ^ 8)

unfoldable pub set_payload_length : ℕ → ProviderPacket → ProviderPacket × ℕ
set_payload_length n p = (record p { payload_length = n % 2 ^ 16 }, p.payload_length % 2 ^ 8)

-- The bytes are those that the pointer and the length name.
unfoldable pub set_token : Bytes → ProviderPacket → ProviderPacket
set_token bytes p = record p { token = bytes }

unfoldable pub set_payload : Bytes → ProviderPacket → ProviderPacket
set_payload bytes p = record p { payload = bytes }
