-- ===== src/Apns/Hex.antt =====
-- `Chr2Hex` and `Hex2Chr` of ApsApnsPrimeryRequestMessage.cpp: a device token from its hexadecimal
-- digits. A `char` above 127 is negative in the source, and skipped like those above `z` here.
use pushserver.Prelude.{
  ℕ, ◌+◌, ◌-◌, ◌*◌, ◌/◌, ◌%◌, ◌^◌, ◌≤◌, ◌<◌, ◌≡◌, refl, [], ◌∷◌, Bool, false, ◌&&◌, ◌||◌, Bytes,
  All, IsByte, arith, length, ltb, leb, if◌then◌else◌,
}
use mathlib.Core.Path.{ap₂}

abbrev pub between : ℕ → ℕ → ℕ → Bool
between low high c = leb low c && leb c high

abbrev pub chr2hex : ℕ → ℕ
chr2hex c =
    if between 48 57 c
    then c - 48
    else (if between 97 102 c then c - 97 + 10 else (if between 65 70 c then c - 65 + 10 else 0))

-- The characters that are passed over: neither a digit nor a letter.
abbrev pub is_skipped : ℕ → Bool
is_skipped c = ltb c 48 || (ltb 57 c && ltb c 65) || (ltb 90 c && ltb c 97) || ltb 122 c

-- The bytes written to `dstStr`. A last digit alone is paired with the string's NUL.
unfoldable pub hex2chr : Bytes → Bytes
hex2chr [] = []
hex2chr (c ∷ []) = if is_skipped c then [] else (chr2hex c * 16 % 2 ^ 8) ∷ []
hex2chr (c ∷ d ∷ rest) =
    if is_skipped c
    then hex2chr (d ∷ rest)
    else ((chr2hex c * 16 + chr2hex d) % 2 ^ 8) ∷ hex2chr rest

-- The digits of a byte string, in lower case.
abbrev pub digit : ℕ → ℕ
digit n = if ltb n 10 then n + 48 else n + 87

unfoldable pub to_hex : Bytes → Bytes
to_hex [] = []
to_hex (b ∷ bs) = digit (b / 16) ∷ digit (b % 16) ∷ to_hex bs

chr2hex-digit : (n : ℕ) → n < 16 → chr2hex (digit n) ≡ n
chr2hex-digit n h = ground arith

digit_kept : (n : ℕ) → n < 16 → is_skipped (digit n) ≡ false
digit_kept n h = ground arith

-- Bytes written in lower-case hexadecimal are read back.
pub hex2chr-to_hex : (bs : Bytes) → All IsByte bs → hex2chr (to_hex bs) ≡ bs
unfolding hex2chr to_hex
hex2chr-to_hex [] h = refl
hex2chr-to_hex (b ∷ bs) h =
    let high = chr2hex-digit (b / 16) (omega (arith, h.0)) in
    let low = chr2hex-digit (b % 16) (omega arith) in
    rw (digit_kept (b / 16) (omega (arith, h.0)), high, low)
      (ap₂ (λ c cs. c ∷ cs) (omega (arith, h.0)) (hex2chr-to_hex bs h.1))

-- No more bytes are written than the text has characters.
pub hex2chr-bound : (s : Bytes) → length (hex2chr s) ≤ length s
unfolding hex2chr
hex2chr-bound [] = omega arith
hex2chr-bound (c ∷ []) = ground arith
hex2chr-bound (c ∷ d ∷ rest) = ground (arith, hex2chr-bound rest, hex2chr-bound (d ∷ rest))
