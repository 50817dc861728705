-- ===== src/App/Session/Clients/Device.antt =====
-- The devices of a user, and what the messages to them leave at the two clients.
use pushserver.Prelude.{
  ℕ, ◌+◌, ◌%◌, ◌^◌, ◌<◌, ◌≡◌, List, [], ◌∷◌, ◌++◌, map, Bool, false, some, Option, Bytes, codes,
  c_str, strcmp_eq, IsCString, IsByte, All, if◌then◌else◌, length,
}
use pushserver.Redis.{Redis}
use pushserver.Apns.Hex.{to_hex}
use pushserver.Apns.Message.{Message}
use pushserver.Apns.Format.{read_message}
use pushserver.Apns.Pool.{notification}
use pushserver.Provider.Session.Frames.{push_bytes}
use pushserver.Provider.C2dm as C2dm
use pushserver.Provider.C2dm.Delivery.{message, sent_log}
use pushserver.App.Session.Publish.{is_target}
use pushserver.App.Session.Clients.{Clients, outcome, later}

-- A device of the user: one of Apple's, by its token of 32 bytes, or another, by its token and type.
pub data Device : Type 0 where
  apple : Bytes → Device
  other : Bytes → Bytes → Device

-- Its entry in the map of the user's devices.
abbrev pub entry : Device → Bytes × Bytes
entry (apple bs) = (to_hex bs, codes "ios")
entry (other token type) = (token, type)

abbrev pub IsDevice : Device → Type 0
IsDevice (apple bs) = (length bs ≡ 32) × All IsByte bs
IsDevice (other token type) =
    (length token ≡ 32)
    × IsCString token
    × (strcmp_eq type (codes "ios") ≡ false)
    × (length (c_str type) < 240)

abbrev pub next_id : ℕ → ℕ
next_id id = (id + 1) % 2 ^ 32

-- What is delivered to the devices one after the other: the messages that Apple's service is to
-- read, and the log of the C2DM client.
module _ (redis : Redis) (ios android : Bytes) where
  abbrev pub queued : ℕ → List Device → List (Option (Message × Bytes))
  queued id [] = []
  queued id (apple bs ∷ devices) =
      if is_target redis (to_hex bs) (codes "ios")
      then some (notification (next_id id) bs ios, []) ∷ queued (next_id id) devices
      else queued id devices
  queued id (other token type ∷ devices) = queued id devices

  abbrev pub sent_to : List Bool → List Device → List C2dm.Effect → List C2dm.Effect
  sent_to outcomes [] log = log
  sent_to outcomes (apple bs ∷ devices) log = sent_to outcomes devices log
  sent_to outcomes (other token type ∷ devices) log =
      if is_target redis token type
      then sent_to (later outcomes) devices
          (sent_log (outcome outcomes) (push_bytes (message token android)) log)
      else sent_to outcomes devices log

  -- The clients behind the pushes, from those before.
  abbrev pub Delivered : List Device → Clients → Clients → Type 0
  Delivered devices c c' =
      ((bytes : List Bytes) × (c'.pool.advance.messages ≡ c.pool.advance.messages ++ bytes)
        × (map read_message bytes ≡ queued c.pool.message_id devices))
      × (c'.c2dm.log ≡ sent_to c.outcomes devices c.c2dm.log)
