-- ===== src/Apns/Message.antt =====
-- ApsApnsPrimeryRequestMessage.cpp: a notification in the binary format of Apple's push service.
-- The member `m_tokenLength` is the constant 32, in network order.
use pushserver.Prelude.{
  ℕ, ◌/◌, ◌%◌, ◌^◌, [], ◌∷◌, ◌++◌, Bool, Option, none, some, Bytes, codes, bytes_eq, c_str, Result,
  ok, overrun, length, take, ltb, ◌==◌, if◌then◌else◌,
}
use pushserver.Apns.Hex.{hex2chr}

pub record Message : Type 0 where
  pub command : ℕ
  pub id : ℕ
  pub expiry : ℕ
  pub device_token : Bytes
  pub payload : Bytes

abbrev pub set_command : ℕ → Message → Message
set_command cmd m = record m { command = cmd }

abbrev pub set_expiry : ℕ → Message → Message
set_expiry expiry m = record m { expiry = expiry }

abbrev pub set_id : ℕ → Message → Message
set_id id m = record m { id = id }

-- `memory` is what the local buffer of 32 bytes held; the digits are written over its begin.
unfoldable pub set_device_token : Bytes → Bytes → Message → Result Message
set_device_token memory token m =
    let bytes = hex2chr (c_str token) in
    if ltb 32 (length bytes)
    then overrun
    else ok (record m { device_token = take 32 (bytes ++ memory) })

-- `!strncmp(payLoad, "null", 4)`.
abbrev pub is_null : Bytes → Bool
is_null pay_load = bytes_eq (take 4 (c_str pay_load)) (codes "null")

abbrev pub aps_text : Bytes → Bytes
aps_text pay_load =
    codes "{\"aps\":"
    ++ ((if is_null pay_load then codes "{\"alert\":\" AVCON Push Sever \"}" else c_str pay_load)
        ++ codes "}")

-- `strcpy` and `strcat` into 256 bytes, the NUL included.
unfoldable pub set_payload : Bytes → Message → Result Message
set_payload pay_load m =
    if ltb 255 (length (aps_text pay_load))
    then overrun
    else ok (record m { payload = aps_text pay_load })

-- Numbers in network order.
abbrev pub net16 : ℕ → Bytes
net16 n = (n / 2 ^ 8 % 2 ^ 8) ∷ (n % 2 ^ 8) ∷ []

abbrev pub net32 : ℕ → Bytes
net32 n = (n / 2 ^ 24 % 2 ^ 8) ∷ (n / 2 ^ 16 % 2 ^ 8) ∷ (n / 2 ^ 8 % 2 ^ 8) ∷ (n % 2 ^ 8) ∷ []

abbrev pub token_and_payload : Message → Bytes
token_and_payload m =
    net16 32 ++ (take 32 m.device_token ++ (net16 (length m.payload % 2 ^ 16) ++ m.payload))

-- The bytes written to the buffer, which is not NULL. With another command nothing is written and
-- the length stays, though the function returns true as well.
unfoldable pub get_request_message : Message → Option Bytes
get_request_message m =
    if m.command == 0
    then some (0 ∷ token_and_payload m)
    else (if m.command == 1
        then some (1 ∷ (net32 m.id ++ (net32 m.expiry ++ token_and_payload m)))
        else none)
