-- ===== src/Mqtt/Framing/Remaining.antt =====
-- The length field of an MQTT packet: the decoder in MqttServer.cpp against the encoder of the
-- protocol.
use pushserver.Prelude.{
  ℕ, zero, suc, ◌+◌, ◌*◌, ◌/◌, ◌%◌, ◌^◌, ◌≤◌, ◌<◌, ◌≡◌, ap, ◌∙◌, ltb, leb, le→ltb, le→leb, true,
  false, [], ◌∷◌, ◌++◌, Bytes, arith, length, if◌then◌else◌,
}
use native.Mathlib.Decide.{dec_lt}
use pushserver.Mqtt.Framing.{decoded, decode_remaining}

-- The protocol's encoder: seven bits a byte, low bits first, the top bit where more follow.
unfoldable pub encode_digits : ℕ → ℕ → Bytes
encode_digits zero n = n ∷ []
encode_digits (suc k) n =
    let rest = encode_digits k (n / 128) in if ltb n 128 then n ∷ [] else (n % 128 + 128) ∷ rest

unfoldable pub encode_remaining : ℕ → Bytes
unfolding encode_digits
encode_remaining = encode_digits 3

-- One round, on a byte with the top bit set and on a last byte.
module _ (n_len b : ℕ) (rest : Bytes) (count mult total : ℕ) (few : count < 4) where
  decode_more :
      b < 128
      → count + 2 ≤ n_len
      → decode_remaining n_len ((b + 128) ∷ rest) count mult total
        ≡ decode_remaining n_len rest
            (count + 1)
            (mult * 128 % 2 ^ 32)
            ((total + b * mult) % 2 ^ 32)
  unfolding decode_remaining
  decode_more h room =
      let low : (b + 128) % 128 ≡ b = omega arith in
      let high : (b + 128) / 128 % 2 ≡ 1 = omega arith in
      let few' : ltb 4 (count + 1) ≡ false = le→ltb _ _ (omega arith) in
      let room' : leb (count + 1 + 1) n_len ≡ true = le→leb _ _ (omega arith) in
      rw (low, high, few', room')

  decode_last :
      b < 128
      → decode_remaining n_len (b ∷ rest) count mult total
        ≡ decoded ((total + b * mult) % 2 ^ 32) (count + 1) rest
  unfolding decode_remaining
  decode_last h = ground arith

-- The encoding by the number of its bytes.
module _ (n : ℕ) where
  pub encode_one : n < 2 ^ 7 → encode_remaining n ≡ n ∷ []
  unfolding encode_remaining
  encode_one h = ground arith

  pub encode_two : 2 ^ 7 ≤ n → n < 2 ^ 14 → encode_remaining n ≡ (n % 128 + 128) ∷ (n / 128) ∷ []
  unfolding encode_remaining
  encode_two h k = ground arith

  encode_three :
      2 ^ 14 ≤ n
      → n < 2 ^ 21
      → encode_remaining n ≡ (n % 128 + 128) ∷ (n / 128 % 128 + 128) ∷ (n / 128 / 128) ∷ []
  unfolding encode_remaining
  encode_three h k = ground arith

  encode_four :
      2 ^ 21 ≤ n
      → encode_remaining n
        ≡ (n % 128 + 128)
          ∷ (n / 128 % 128 + 128)
          ∷ (n / 128 / 128 % 128 + 128)
          ∷ (n / 128 / 128 / 128)
          ∷ []
  unfolding encode_remaining
  encode_four h = ground arith

-- The decoder at each of these lengths.
module _ (n_len n : ℕ) (rest : Bytes) where
  decode_one : n < 2 ^ 7 → decode_remaining n_len (n ∷ rest) 0 1 0 ≡ decoded n 1 rest
  decode_one h =
      let value : (0 + n * 1) % 2 ^ 32 ≡ n = omega arith in
      decode_last n_len n rest 0 1 0 (omega arith) h ∙ ap (λ v. decoded v 1 rest) value

  decode_two :
      n < 2 ^ 14
      → 3 ≤ n_len
      → decode_remaining n_len ((n % 128 + 128) ∷ (n / 128) ∷ rest) 0 1 0 ≡ decoded n 2 rest
  decode_two h room =
      let value : ((0 + n % 128 * 1) % 2 ^ 32 + n / 128 * 128) % 2 ^ 32 ≡ n = omega arith in
      decode_more n_len (n % 128) ((n / 128) ∷ rest) 0 1 0 (omega arith) (omega arith) (omega arith)
      ∙ decode_last n_len (n / 128) rest 1 128 _ (omega arith) (omega arith)
      ∙ ap (λ v. decoded v 2 rest) value

  decode_three :
      n < 2 ^ 21
      → 4 ≤ n_len
      → decode_remaining n_len
          ((n % 128 + 128) ∷ (n / 128 % 128 + 128) ∷ (n / 128 / 128) ∷ rest)
          0
          1
          0
        ≡ decoded n 3 rest
  decode_three h room =
      let value : (((0 + n % 128 * 1) % 2 ^ 32 + n / 128 % 128 * 128) % 2 ^ 32
              + n / 128 / 128 * 16384)
            % 2 ^ 32
          ≡ n =
        omega arith in
      decode_more n_len (n % 128) _ 0 1 0 (omega arith) (omega arith) (omega arith)
      ∙ decode_more n_len (n / 128 % 128) _ 1 128 _ (omega arith) (omega arith) (omega arith)
      ∙ decode_last n_len (n / 128 / 128) rest 2 16384 _ (omega arith) (omega arith)
      ∙ ap (λ v. decoded v 3 rest) value

  decode_four :
      n < 2 ^ 28
      → 5 ≤ n_len
      → decode_remaining n_len
          ((n % 128 + 128)
            ∷ (n / 128 % 128 + 128)
            ∷ (n / 128 / 128 % 128 + 128)
            ∷ (n / 128 / 128 / 128)
            ∷ rest)
          0
          1
          0
        ≡ decoded n 4 rest
  decode_four h room =
      let value : ((((0 + n % 128 * 1) % 2 ^ 32 + n / 128 % 128 * 128) % 2 ^ 32
                  + n / 128 / 128 % 128 * 16384)
                % 2 ^ 32
              + n / 128 / 128 / 128 * 2097152)
            % 2 ^ 32
          ≡ n =
        omega arith in
      decode_more n_len (n % 128) _ 0 1 0 (omega arith) (omega arith) (omega arith)
      ∙ decode_more n_len (n / 128 % 128) _ 1 128 _ (omega arith) (omega arith) (omega arith)
      ∙ decode_more n_len (n / 128 / 128 % 128) _ 2 16384 _ (omega arith) (omega arith)
          (omega arith)
      ∙ decode_last n_len (n / 128 / 128 / 128) rest 3 2097152 _ (omega arith) (omega arith)
      ∙ ap (λ v. decoded v 4 rest) value

-- The decoder reads every length below 2^28, which are those that the protocol can write, with the
-- bytes behind it, where the field is inside the received bytes.
pub decode-encode :
    (n_len n : ℕ) (rest : Bytes)
    → n < 2 ^ 28
    → 1 + length (encode_remaining n) ≤ n_len
    → decode_remaining n_len (encode_remaining n ++ rest) 0 1 0
      ≡ decoded n (length (encode_remaining n)) rest
decode-encode n_len n rest h room = elim (dec_lt n (2 ^ 7)) [
  | yes a ↦ rw (encode_one n a) (decode_one n_len n rest a)
  | no a ↦ elim (dec_lt n (2 ^ 14)) [
    | yes b ↦
        let e = encode_two n (omega arith) b in rw e (decode_two n_len n rest b (rw e at room))
    | no b ↦ elim (dec_lt n (2 ^ 21)) [
      | yes c ↦
          let e = encode_three n (omega arith) c in
          rw e (decode_three n_len n rest c (rw e at room))
      | no c ↦
          let e = encode_four n (omega arith) in rw e (decode_four n_len n rest h (rw e at room))
    ]
  ]
]

pub encode_bounds : (n : ℕ) → (1 ≤ length (encode_remaining n)) × (length (encode_remaining n) ≤ 4)
encode_bounds n = elim (dec_lt n (2 ^ 7)) [
  | yes a ↦ rw (encode_one n a) (omega arith)
  | no a ↦ elim (dec_lt n (2 ^ 14)) [
    | yes b ↦ rw (encode_two n (omega arith) b) (omega arith)
    | no b ↦ elim (dec_lt n (2 ^ 21)) [
      | yes c ↦ rw (encode_three n (omega arith) c) (omega arith)
      | no c ↦ rw (encode_four n (omega arith)) (omega arith)
    ]
  ]
]
