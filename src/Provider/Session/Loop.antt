-- ===== src/Provider/Session/Loop.antt =====
-- The loop of `SslSvrSession::Run` over the push messages in its buffer.
use pushserver.Prelude.{
  ℕ, zero, suc, ◌+◌, ◌/◌, ◌%◌, ◌^◌, ◌≤◌, ◌<◌, ◌≡◌, refl, sym, ap, ◌∙◌, List, [], ◌∷◌, ◌++◌, Bytes,
  Result, ok, ◌>>=◌, All, arith, length, drop, replicate, sub32, ◌==◌, ==_ne, take_else, le→leb,
  if◌then◌else◌, length-append, take-append, drop-append, append_assoc, bind_known, >>=-congr,
  bind_assoc,
}
use mathlib.Core.Path.{ap₂}
use pushserver.Json.{Json}
use pushserver.Mqtt.Packet.Code
use pushserver.Provider.Session.{
  World, Step, slice, packet_handle, move_rest, finish_recv_msg, process_recv_msg, process_loop,
}
use pushserver.Provider.Session.Frames.{
  Push, push_bytes, stream, IsPush, packet_of, parts, counted, used, length-parts, recv_parts,
  run_pushes,
}

-- The loop after one call.
abbrev resume : ℕ → Json → Step → Result (World × ℕ)
resume fuel J step =
    if step.rc == 0
    then process_loop fuel J step.buffer step.left step.world
    else ok (step.world, step.rc)

loop_pos :
    (fuel : ℕ) (J : Json) (buffer : Bytes) (n : ℕ) (w : World)
    → 0 < n
    → process_loop (suc fuel) J buffer n w ≡ (process_recv_msg J buffer n w >>= resume fuel J)
unfolding process_loop
loop_pos fuel J buffer zero w h = absurd (omega arith)
loop_pos fuel J buffer (suc n) w h = refl

loop_done :
    (fuel : ℕ) (J : Json) (buffer : Bytes) (w : World)
    → process_loop fuel J buffer 0 w ≡ ok (w, Code.success)
unfolding process_loop
loop_done zero J buffer w = refl
loop_done (suc fuel) J buffer w = refl

-- What stands behind the rest once it has been moved to the front.
slack_after : Bytes → ℕ → ℕ → Bytes
slack_after buffer n left = replicate (sub32 n left) 0 ++ drop (left + sub32 n left) buffer

slice_rest :
    (xs rest slack : Bytes) → slice (xs ++ (rest ++ slack)) (length xs) (length rest) ≡ ok rest
slice_rest xs rest slack =
    rw
      (le→leb (length xs + length rest) (length (xs ++ (rest ++ slack)))
        (omega (arith, length-append xs (rest ++ slack), length-append rest slack)))
      (rw (drop-append xs (rest ++ slack)) (ap ok (take-append rest slack)))

-- After a message the loop goes on with the rest of the bytes.
move_resume :
    (xs rest slack : Bytes) (n fuel : ℕ) (J : Json) (w : World)
    → (move_rest (xs ++ (rest ++ slack)) n (length xs) (length rest) w >>= resume fuel J)
      ≡ process_loop fuel J
          (rest ++ slack_after (xs ++ (rest ++ slack)) n (length rest))
          (length rest)
          w
unfolding move_rest slack_after
move_resume xs [] slack n fuel J w = loop_done fuel J _ w ∙ sym (loop_done fuel J _ w)
move_resume xs (r ∷ rs) slack n fuel J w =
    ap (λ m. m >>= resume fuel J)
      (take_else _ _ (==_ne (length (r ∷ rs)) 0 (omega arith))
        ∙ bind_known _ (slice_rest xs (r ∷ rs) slack))

pub push_parts : (f : Push) (tail : Bytes) → push_bytes f ++ tail ≡ parts f tail
push_parts f tail =
    ap (λ bytes. f.command ∷ (length f.token / 2 ^ 8) ∷ (length f.token % 2 ^ 8) ∷ bytes)
      (append_assoc f.token (counted f.payload []) tail
        ∙ ap (λ bytes. f.token ++ ((length f.payload / 2 ^ 8) ∷ (length f.payload % 2 ^ 8) ∷ bytes))
            (append_assoc f.payload [] tail))

pub push_length : (f : Push) → length (push_bytes f) ≡ used f
push_length f = omega (arith, length-parts f [])

module _ (f : Push) (rest slack : Bytes) (h : IsPush f) where
  abbrev whole : Bytes
  whole = push_bytes f ++ (rest ++ slack)

  abbrev n_len : ℕ
  n_len = used f + length rest

  finish_resume :
      (fuel : ℕ) (J : Json) (w : World)
      → n_len < 2 ^ 32
      → (finish_recv_msg whole n_len (used f) w >>= resume fuel J)
        ≡ process_loop fuel J (rest ++ slack_after whole n_len (length rest)) (length rest) w
  finish_resume fuel J w small =
      ap₂ (λ n left. move_rest whole n_len n left w >>= resume fuel J) (sym (push_length f)) left
      ∙ move_resume (push_bytes f) rest slack n_len fuel J w
    where
      left : sub32 n_len (used f) ≡ length rest
      left = omega (arith, small)

  -- One round of the loop on a buffer that begins with a message.
  loop_round :
      (fuel : ℕ) (J : Json) (w : World)
      → n_len < 2 ^ 32
      → process_loop (suc fuel) J whole n_len w ≡ (
          packet_handle J (packet_of f) w >>= λ w'.
          process_loop fuel J (rest ++ slack_after whole n_len (length rest)) (length rest) w')
  loop_round fuel J w small =
      loop_pos fuel J whole n_len w (omega arith)
      ∙ ap (λ m. m >>= resume fuel J) step
      ∙ bind_assoc (packet_handle J (packet_of f) w) _ (resume fuel J)
      ∙ >>=-congr (packet_handle J (packet_of f) w) _ _ (λ w'. finish_resume fuel J w' small)
    where
      step :
          process_recv_msg J whole n_len w
          ≡ (packet_handle J (packet_of f) w >>= finish_recv_msg whole n_len (used f))
      step =
          rw (push_parts f (rest ++ slack))
            (recv_parts f (rest ++ slack) J n_len w h.0 (omega (arith, h.1)) (omega (arith, h.1)))

-- On a buffer that begins with whole push messages for 32-byte tokens, less than 2^32 bytes in all,
-- whatever stands behind the received bytes, and with as much fuel as bytes, the receive loop hands
-- over exactly these messages, one after the other.
pub process_loop-run_pushes :
    (J : Json) (fuel : ℕ) (fs : List Push) (slack : Bytes) (w : World)
    → All IsPush fs
    → length (stream fs) < 2 ^ 32
    → length (stream fs) ≤ fuel
    → process_loop fuel J (stream fs ++ slack) (length (stream fs)) w ≡ run_pushes J fs w
unfolding run_pushes
process_loop-run_pushes J fuel [] slack w h small enough = loop_done fuel J slack w
process_loop-run_pushes J zero (f ∷ fs) slack w h small enough = absurd (omega arith)
process_loop-run_pushes J (suc fuel) (f ∷ fs) slack w h small enough =
    ap₂ (λ b n. process_loop (suc fuel) J b n w) (append_assoc (push_bytes f) (stream fs) slack)
      size
    ∙ loop_round f (stream fs) slack h.0 fuel J w (omega (arith, size))
    ∙ >>=-congr (packet_handle J (packet_of f) w) _ _ (λ w'.
      process_loop-run_pushes J fuel fs _ w' h.1 (omega (arith, size)) (omega (arith, size)))
  where
    size : length (push_bytes f ++ stream fs) ≡ used f + length (stream fs)
    size = omega (arith, push_length f, length-append (push_bytes f) (stream fs))
