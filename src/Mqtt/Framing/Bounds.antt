-- ===== src/Mqtt/Framing/Bounds.antt =====
-- The receive loop of MqttServer.cpp on any bytes: it stays inside the buffer and ends.
use pushserver.Prelude.{
  ℕ, zero, suc, ◌+◌, ◌-◌, ◌*◌, ◌%◌, ◌^◌, ◌≤◌, ◌<◌, ◌≡◌, refl, ◌⊎◌, inl, inr, [], ◌∷◌, ◌++◌, Bytes,
  Result, ok, thrown, overrun, stuck, arith, ℤ, pos, negsuc, length, drop, take, replicate, ltb,
  leb, ◌&&◌, Bool-cases, ==_ne, signed32, sub32, signed32-sub32, length-append, length-take,
  length-drop, length-replicate,
}
use native.Mathlib.Decide.{dec_le}
use pushserver.Mqtt.Session.{Session}
use pushserver.Mqtt.Framing.{
  Decoded, too_long, outside, decoded, decode_remaining, has_more, Step, after_shift, shift,
  finish_recv_msg,
}

-- The multiplier that goes with a count of bytes read; past four the decoder stops.
abbrev pub Scale : ℕ → ℕ → ℕ → Type 0
Scale count mult total =
    ((count ≡ 0) × (mult ≡ 1) × (total ≡ 0))
    ⊎ ((count ≡ 1) × (mult ≡ 2 ^ 7) × (total < 2 ^ 7))
    ⊎ ((count ≡ 2) × (mult ≡ 2 ^ 14) × (total < 2 ^ 14))
    ⊎ ((count ≡ 3) × (mult ≡ 2 ^ 21) × (total < 2 ^ 21))
    ⊎ (4 ≤ count)

-- What the decoder may answer: a length of at most four bytes, below 2 ^ 28.
abbrev pub Fits : Decoded → Type 0
Fits too_long = Unit {0}
Fits outside = ⊥
Fits (decoded total count rest) = (1 ≤ count) × (count ≤ 4) × (total < 2 ^ 28)

Scale-next :
    (count mult total b : ℕ)
    → Scale count mult total
    → Scale (count + 1) (mult * 128 % 2 ^ 32) ((total + b % 128 * mult) % 2 ^ 32)
Scale-next count mult total b (inl (c, m, t)) =
    inr (inl (omega arith, rw m refl, rw (m, t) (omega arith)))
Scale-next count mult total b (inr (inl (c, m, t))) =
    inr (inr (inl (omega arith, rw m refl, rw m (omega arith))))
Scale-next count mult total b (inr (inr (inl (c, m, t)))) =
    inr (inr (inr (inl (omega arith, rw m refl, rw m (omega arith)))))
Scale-next count mult total b (inr (inr (inr (inl (c, m, t))))) =
    inr (inr (inr (inr (omega arith))))
Scale-next count mult total b (inr (inr (inr (inr h)))) = inr (inr (inr (inr (omega arith))))

Scale-last :
    (count mult total b : ℕ)
    → Scale count mult total
    → count < 4
    → (total + b % 128 * mult) % 2 ^ 32 < 2 ^ 28
Scale-last count mult total b (inl (c, m, t)) h = rw (m, t) (omega arith)
Scale-last count mult total b (inr (inl (c, m, t))) h = rw m (omega arith)
Scale-last count mult total b (inr (inr (inl (c, m, t)))) h = rw m (omega arith)
Scale-last count mult total b (inr (inr (inr (inl (c, m, t))))) h = rw m (omega arith)
Scale-last count mult total b (inr (inr (inr (inr k)))) h = absurd (omega arith)

pub decode-Fits :
    (n_len : ℕ) (bytes : Bytes) (count mult total : ℕ)
    → Scale count mult total
    → count + 1 ≤ n_len
    → n_len < count + 1 + length bytes
    → Fits (decode_remaining n_len bytes count mult total)
unfolding decode_remaining
decode-Fits n_len [] count mult total sc lo hi = absurd (omega arith)
decode-Fits n_len (b ∷ rest) count mult total sc lo hi =
    let next =
      decode-Fits n_len rest (count + 1) (mult * 128 % 2 ^ 32) ((total + b % 128 * mult) % 2 ^ 32)
        (Scale-next count mult total b sc) in
    elim (Bool-cases (ltb 4 (count + 1))) [
      | inl far ↦ rw far tt
      | inr near ↦ elim (Bool-cases (has_more b && leb (count + 1 + 1) n_len)) [
        | inl more ↦ rw (near, more) (next (ground arith) (omega arith))
        | inr last ↦
            rw (near, last)
              (omega arith, ground arith, Scale-last count mult total b sc (ground arith))
      ]
    ]

abbrev pub Shorter : ℕ → ℤ → Type 0
Shorter n (pos m) = m < n
Shorter n (negsuc m) = Unit {0}

-- A call ends, keeps the buffer's size, and after a success fewer bytes are left.
abbrev pub Advances : ℕ → Bytes → Result Step → Type 0
Advances n buffer (ok step) =
    (length step.buffer ≡ length buffer) × (step.rc ≡ 0 → Shorter n step.left)
Advances n buffer thrown = Unit {0}
Advances n buffer overrun = ⊥
Advances n buffer stuck = ⊥

left_shorter :
    (n total count : ℕ)
    → total < 2 ^ 28
    → count ≤ 4
    → n < 2 ^ 31
    → ((total + count + 1 ≤ n)
        × (signed32 (sub32 n (total + count + 1)) ≡ pos (n - (total + count + 1))))
      ⊎ ((m : ℕ) × (signed32 (sub32 n (total + count + 1)) ≡ negsuc m))
left_shorter n total count ht hc hn = elim (dec_le (total + count + 1) n) [
  | yes h ↦ inl (h, signed32-sub32 n (total + count + 1) hn h)
  | no h ↦ inr (total + count - n, ground arith)
]

length-shift :
    (buffer : Bytes) (offset len n : ℕ)
    → offset + n ≤ length buffer
    → len ≤ length buffer
    → n ≤ len
    → length (shift buffer offset len n) ≡ length buffer
length-shift buffer offset len n a b c = omega (
  arith,
  length-append (take n (drop offset buffer)) (replicate (len - n) 0 ++ drop len buffer),
  length-append (replicate (len - n) 0) (drop len buffer),
  length-replicate {A = ℕ} (len - n) 0,
  length-drop len buffer,
  length-drop offset buffer,
  length-take n (drop offset buffer),
)

length-after_shift :
    (buffer : Bytes) (offset len n : ℕ)
    → offset + n ≤ length buffer
    → len ≤ length buffer
    → n ≤ len
    → length (after_shift buffer offset len (pos n)) ≡ length buffer
length-after_shift buffer offset len zero a b c = refl
length-after_shift buffer offset len (suc n) a b c = length-shift buffer offset len (suc n) a b c

pub finish-Advances :
    (buffer : Bytes) (n total count : ℕ) (done : Session × ℕ)
    → total < 2 ^ 28
    → count ≤ 4
    → n < 2 ^ 31
    → n ≤ length buffer
    → Advances n buffer (ok (finish_recv_msg buffer n total count done))
unfolding finish_recv_msg
finish-Advances buffer n total count (s, zero) ht hc hn hb =
    elim (left_shorter n total count ht hc hn) [
      | inl (fits, e) ↦ rw e (
        length-after_shift buffer _ n (n - (total + count + 1)) (ground arith) hb (omega arith),
        λ _. omega arith,
      )
      | inr (m, e) ↦ rw e (refl, λ _. tt)
    ]
finish-Advances buffer n total count (s, suc rc) ht hc hn hb =
    rw (==_ne (suc rc) 0 (omega arith)) (refl, λ e. absurd (omega arith))
