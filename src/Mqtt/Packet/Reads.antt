-- ===== src/Mqtt/Packet/Reads.antt =====
-- The readers of MqttPacket.cpp stay inside the payload, and do what a parser of the bytes that
-- the cursor has not reached does.
use pushserver.Prelude.{
  ℕ, suc, ◌+◌, ◌*◌, ◌-◌, ◌%◌, ◌^◌, ◌≤◌, ◌<◌, ◌≡◌, inl, inr, [], ◌∷◌, Option, none, some, Bytes,
  arith, leb, length, take, drop, drop_step, drop-drop, length-drop, if◌then◌else◌, Option-cases,
}
use pushserver.Mqtt.Packet.Code
use pushserver.Mqtt.Packet.{
  MqttPacket, Read, payload_bytes, read_uint8, read_uint16, read_string, read_body,
}

-- What the operations rely on: the length counts the bytes behind the pointer, the cursor is not
-- past them, and there are fewer than 2 ^ 16.
pub record IsPacket (p : MqttPacket) : Type 0 where
  pub counted : length (payload_bytes p) ≡ p.remaining_length
  pub cursor : p.pos ≤ p.remaining_length
  pub small : p.remaining_length < 2 ^ 16

-- What the cursor has not reached.
abbrev pub unread : MqttPacket → Bytes
unread p = drop p.pos (payload_bytes p)

-- Parsers of the unread bytes, with no cursor.
abbrev pub parse_uint8 : Bytes → Option (ℕ × Bytes)
parse_uint8 [] = none
parse_uint8 (b ∷ rest) = some (b, rest)

abbrev pub parse_uint16 : Bytes → Option (ℕ × Bytes)
parse_uint16 [] = none
parse_uint16 (h ∷ []) = none
parse_uint16 (h ∷ l ∷ rest) = some ((h * 2 ^ 8 + l) % 2 ^ 16, rest)

abbrev pub parse_string : Bytes → Option (Bytes × Bytes)
parse_string bs = elim (parse_uint16 bs) [
  | none ↦ none
  | some (n, rest) ↦ if leb n (length rest) then some (take n rest, drop n rest) else none
]

-- `r` is what a reader of `old` returns, if the parser of the unread bytes says `parsed`.
abbrev pub Agrees : {A : Type 0} → A → Option (A × Bytes) → Read A → Type 0
Agrees old none r = (r.code ≡ Code.protocol) × (r.value ≡ old)
Agrees old (some (a, rest)) r =
    (r.code ≡ Code.success) × (r.value ≡ a) × (unread r.packet ≡ rest) × IsPacket r.packet

module _ (p : MqttPacket) (v : IsPacket p) where
  length-unread : length (unread p) ≡ p.remaining_length - p.pos
  length-unread = omega (arith, length-drop p.pos (payload_bytes p), v.counted)

  pub read_uint8-Agrees : (num : ℕ) → Agrees num (parse_uint8 (unread p)) (read_uint8 p num)
  unfolding read_uint8
  read_uint8-Agrees num = ground (arith, length-unread, drop_step (payload_bytes p) p.pos)

  pub read_uint16-Agrees : (word : ℕ) → Agrees word (parse_uint16 (unread p)) (read_uint16 p word)
  unfolding read_uint16
  read_uint16-Agrees word = ground (
    arith,
    length-unread,
    drop_step (payload_bytes p) p.pos,
    drop_step (payload_bytes p) (suc p.pos),
  )

-- The second half of `ReadString`, on what the first half read.
read_body-Agrees :
    (str : Bytes) (r : Read ℕ)
    → r.code ≡ Code.success
    → r.value < 2 ^ 16
    → IsPacket r.packet
    → Agrees str
        (if leb r.value (length (unread r.packet))
          then some (take r.value (unread r.packet), drop r.value (unread r.packet))
          else none)
        (read_body str r)
unfolding read_body
read_body-Agrees str r e small v =
    ground
      (arith, length-unread r.packet v, drop-drop r.packet.pos r.value (payload_bytes r.packet))

read_uint16-value : (p : MqttPacket) → (read_uint16 p 0).value < 2 ^ 16
unfolding read_uint16
read_uint16-value p = ground arith

read_body_failed :
    (str : Bytes) (r : Read ℕ)
    → r.code ≡ Code.protocol
    → ((read_body str r).code ≡ Code.protocol) × ((read_body str r).value ≡ str)
unfolding read_body
read_body_failed str r e = ground arith

-- On a packet whose cursor and length fit its payload, `ReadString` returns what the parser of the
-- unread bytes returns, and leaves the cursor behind what it took; where the parser fails it
-- reports a protocol error and leaves the string as it was.
pub read_string-Agrees :
    (p : MqttPacket) (str : Bytes)
    → IsPacket p
    → Agrees str (parse_string (unread p)) (read_string p str)
unfolding read_string
read_string-Agrees p str v = elim (Option-cases (parse_uint16 (unread p))) [
  | inl e ↦ ground (arith, e, read_uint16-Agrees p v 0, read_body_failed str (read_uint16 p 0))
  | inr ((n, rest), e) ↦ ground (
    arith,
    e,
    read_uint16-Agrees p v 0,
    read_uint16-value p,
    read_body-Agrees str (read_uint16 p 0),
  )
]
