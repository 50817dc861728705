-- ===== src/Apns/Feedback.antt =====
-- ApsApnsFeedbackClient.cpp and ApsApnsFeedbackMessage.cpp: a token that Apple's feedback service
-- reports. `char` is signed, and the host has its low byte first.
use pushserver.Prelude.{
  ℕ, ◌+◌, ◌-◌, ◌*◌, ◌^◌, [], ◌∷◌, ◌++◌, Bool, false, not, ◌||◌, Option, none, some, Bytes, c_str,
  Result, ok, overrun, ◌>>=◌, length, take, ltb, ◌==◌, if◌then◌else◌,
}
use pushserver.Apns.Hex.{hex2chr}

pub record FeedbackMessage : Type 0 where
  pub time : ℕ
  pub device_token : Bytes

-- `ntohl` of one byte that is made a number of 32 bits with its sign.
abbrev pub feedback_time : ℕ → ℕ
feedback_time b = if ltb b 128 then b * 2 ^ 24 else b * 2 ^ 24 + (2 ^ 24 - 1)

abbrev pub has_nul : Bytes → Bool
has_nul [] = false
has_nul (b ∷ bs) = b == 0 || has_nul bs

-- A C string that stands in these bytes.
abbrev pub read_c_str : Bytes → Result Bytes
read_c_str bytes = if has_nul bytes then ok (c_str bytes) else overrun

-- `memory` is what the local buffer of 32 bytes held. The text is decoded over its begin, and read
-- from it as a string.
abbrev pub decode_token : Bytes → Bytes → Result Bytes
decode_token memory text =
    let bytes = hex2chr text in
    if ltb 32 (length bytes) then overrun else read_c_str (take 32 (bytes ++ memory))

unfoldable pub set_feedback_token : Bytes → Bytes → FeedbackMessage → Result FeedbackMessage
set_feedback_token memory buffer m =
    read_c_str buffer
    >>= (λ text. decode_token memory text >>= (λ token. ok (record m { device_token = token })))

-- `OnProcessRecvMsg`: the message, and `none` for bytes that are none (ZQ_BadIndex).
unfoldable pub on_process_feedback : Bytes → Bytes → Result (Option FeedbackMessage)
unfolding set_feedback_token
on_process_feedback memory (a ∷ b ∷ c ∷ d ∷ high ∷ low ∷ rest) =
    if not (high == 0) || not (low == 32)
    then ok none
    else set_feedback_token memory rest (record { time = feedback_time a; device_token = [] })
      >>= (λ m. ok (some m))
on_process_feedback memory _ = overrun
