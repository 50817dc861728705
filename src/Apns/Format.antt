-- ===== src/Apns/Format.antt =====
-- The binary formats of Apple's push service, as the service reads them, against the messages of
-- ApsApnsPrimeryRequestMessage.cpp.
use pushserver.Prelude.{
  ℕ, zero, suc, ◌+◌, ◌*◌, ◌%◌, ◌^◌, ◌<◌, ◌≡◌, refl, sym, ap, ◌∙◌, [], ◌∷◌, ◌++◌, Option, none, some,
  Bytes, arith, length, take, drop, leb, if◌then◌else◌, take-append, drop-append, take_all,
  length-append, take_then, le→leb, append_assoc,
}
use mathlib.Core.Path.{ap₂}
use pushserver.Apns.Message.{
  Message, set_command, set_id, set_expiry, net16, net32, token_and_payload, get_request_message,
}

-- What the service reads: the first `n` bytes, and the rest.
abbrev split : ℕ → Bytes → Option (Bytes × Bytes)
split n bytes = if leb n (length bytes) then some (take n bytes, drop n bytes) else none

-- A block behind its length in two bytes.
unfoldable pub read_block : Bytes → Option (Bytes × Bytes)
read_block (high ∷ low ∷ bytes) = split (high * 2 ^ 8 + low) bytes
read_block _ = none

unfoldable pub read_net32 : Bytes → Option (ℕ × Bytes)
read_net32 (a ∷ b ∷ c ∷ d ∷ bytes) = some (a * 2 ^ 24 + b * 2 ^ 16 + c * 2 ^ 8 + d, bytes)
read_net32 _ = none

abbrev and_then : {A B : Type 0} → Option A → (A → Option B) → Option B
and_then none f = none
and_then (some a) f = f a

known : {A B : Type 0} {m : Option A} {a : A} (f : A → Option B) → m ≡ some a → and_then m f ≡ f a
known f e = ap (λ m. and_then m f) e

-- The token, the payload, and what follows.
unfoldable pub read_body : Bytes → Option (Bytes × Bytes × Bytes)
read_body bytes = and_then (read_block bytes) (λ (token, bytes').
    and_then (read_block bytes') (λ (payload, rest). some (token, payload, rest)))

abbrev numbered : ℕ → ℕ → Option (Bytes × Bytes × Bytes) → Option (Message × Bytes)
numbered id expiry none = none
numbered id expiry (some (token, payload, rest)) = some (
  record { command = 1; id = id; expiry = expiry; device_token = token; payload = payload },
  rest,
)

abbrev plain : Option (Bytes × Bytes × Bytes) → Option (Message × Bytes)
plain none = none
plain (some (token, payload, rest)) =
    some (record { command = 0; id = 0; expiry = 0; device_token = token; payload = payload }, rest)

-- A notification in the enhanced format, command 1, or the simple one, command 0.
unfoldable pub read_message : Bytes → Option (Message × Bytes)
read_message [] = none
read_message (zero ∷ bytes) = plain (read_body bytes)
read_message (suc zero ∷ bytes) = and_then (read_net32 bytes) (λ (id, bytes').
    and_then (read_net32 bytes') (λ (expiry, bytes''). numbered id expiry (read_body bytes'')))
read_message (suc (suc c) ∷ bytes) = none

-- The messages that the setters leave: the token has 32 bytes, and the payload less than 256.
abbrev pub IsMessage : Message → Type 0
IsMessage m =
    (m.id < 2 ^ 32)
    × (m.expiry < 2 ^ 32)
    × (length m.device_token ≡ 32)
    × (length m.payload < 2 ^ 8)

split_append : (xs ys : Bytes) (n : ℕ) → n ≡ length xs → split n (xs ++ ys) ≡ some (xs, ys)
split_append xs ys n h =
    ap (λ k. split k (xs ++ ys)) h
    ∙ take_then _ _ (le→leb (length xs) (length (xs ++ ys)) (omega (arith, length-append xs ys)))
    ∙ ap₂ (λ t d. some (t, d)) (take-append xs ys) (drop-append xs ys)

read_block-net16 :
    (xs ys : Bytes) (n : ℕ)
    → n ≡ length xs
    → n < 2 ^ 16
    → read_block (net16 n ++ (xs ++ ys)) ≡ some (xs, ys)
unfolding read_block
read_block-net16 xs ys n h small = split_append xs ys _ (omega arith)

read_net32-net32 : (n : ℕ) (ys : Bytes) → n < 2 ^ 32 → read_net32 (net32 n ++ ys) ≡ some (n, ys)
unfolding read_net32
read_net32-net32 n ys h = ap (λ k. some (k, ys)) (omega arith)

module _ (m : Message) (rest : Bytes) (token : length m.device_token ≡ 32)
    (payload : length m.payload < 2 ^ 8) where
  whole_token : take 32 m.device_token ≡ m.device_token
  whole_token = ap (λ n. take n m.device_token) (sym token) ∙ take_all m.device_token

  body_parts :
      token_and_payload m ++ rest
      ≡ net16 32 ++ (m.device_token ++ (net16 (length m.payload % 2 ^ 16) ++ (m.payload ++ rest)))
  body_parts =
      ap (λ bytes. 0 ∷ 32 ∷ bytes)
        (append_assoc (take 32 m.device_token) (net16 (length m.payload % 2 ^ 16) ++ m.payload) rest
          ∙ ap (λ t. t ++ (net16 (length m.payload % 2 ^ 16) ++ (m.payload ++ rest))) whole_token)

  body_length : length (token_and_payload m) ≡ 36 + length m.payload
  body_length = omega (
    arith,
    length-append (take 32 m.device_token) (net16 (length m.payload % 2 ^ 16) ++ m.payload),
    ap length whole_token,
  )

  read_body_written :
      read_body (token_and_payload m ++ rest) ≡ some (m.device_token, m.payload, rest)
  unfolding read_body
  read_body_written =
      ap read_body body_parts
      ∙ known _ (
          read_block-net16 m.device_token (net16 (length m.payload % 2 ^ 16) ++ (m.payload ++ rest))
            32 (sym token) (omega arith))
      ∙ known _ (
          read_block-net16 m.payload rest (length m.payload % 2 ^ 16) (omega (arith, payload))
            (omega arith))

  -- What is written with command 1, for a token of 32 bytes, a payload of less than 256 and numbers
  -- of 32 bits, has 45 bytes more than the payload, and is, before any rest of a stream, what the
  -- service reads as this message: its id and its expiry, its token and its payload.
  pub read-get_enhanced :
      m.id < 2 ^ 32
      → m.expiry < 2 ^ 32
      → (bytes : Bytes) × (get_request_message (set_command 1 m) ≡ some bytes)
        × (length bytes ≡ 45 + length m.payload)
        × (read_message (bytes ++ rest) ≡ some (set_command 1 m, rest))
  unfolding get_request_message read_message
  read-get_enhanced id expiry = (
    _,
    refl,
    omega (arith, body_length),
    known _ (read_net32-net32 m.id (net32 m.expiry ++ (token_and_payload m ++ rest)) id)
        ∙ known _ (read_net32-net32 m.expiry (token_and_payload m ++ rest) expiry)
        ∙ ap (numbered m.id m.expiry) read_body_written,
  )

  -- What is written with command 0, for a token of 32 bytes and a payload of less than 256, has 37
  -- bytes more than the payload, and is, before any rest of a stream, what the service reads as
  -- this token and payload; this format has no id and no expiry.
  pub read-get_simple :
      (bytes : Bytes) × (get_request_message (set_command 0 m) ≡ some bytes)
      × (length bytes ≡ 37 + length m.payload)
      × (read_message (bytes ++ rest) ≡ some (set_command 0 (set_id 0 (set_expiry 0 m)), rest))
  unfolding get_request_message read_message
  read-get_simple = (_, refl, omega (arith, body_length), ap plain read_body_written)
