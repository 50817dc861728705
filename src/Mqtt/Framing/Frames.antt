-- ===== src/Mqtt/Framing/Frames.antt =====
-- The receive loop of MqttServer.cpp against the packets that a client wrote: the loop hands each
-- packet over whole and in order, wherever one ends in the buffer.
use pushserver.Prelude.{
  ℕ, zero, suc, ◌+◌, ◌-◌, ◌%◌, ◌^◌, ◌≤◌, ◌<◌, ◌≡◌, refl, sym, ap, ◌∙◌, List, [], ◌∷◌, ◌++◌, Bool,
  ◌&&◌, not, none, some, Bytes, Result, ok, ◌>>=◌, arith, pos, signed32-sub32, length, drop,
  replicate, ◌==◌, if◌then◌else◌, ==_ne, length-append, take-append, drop-append, append_assoc,
}
use pushserver.Json.{Json}
use pushserver.Mqtt.Packet.Code
use pushserver.Mqtt.Packet.Command
use pushserver.Mqtt.Packet.{MqttPacket, set_command, new_packet, set_receive_payload}
use pushserver.Mqtt.Session.{Session, packet_handle, high_nibble, is_init_new}
use pushserver.Mqtt.Framing.{
  Step, decoded, decode_remaining, takes_payload, received, finish_recv_msg, process_bytes,
  process_recv_msg, process_loop, after_shift,
}
use pushserver.Mqtt.Framing.Remaining.{encode_remaining, decode-encode}

-- A packet as the client means it.
pub record Frame : Type 0 where
  pub command : ℕ
  pub body : Bytes

abbrev pub count_of : Frame → ℕ
count_of f = length (encode_remaining (length f.body))

abbrev pub frame_bytes : Frame → Bytes
frame_bytes f = f.command ∷ (encode_remaining (length f.body) ++ f.body)

abbrev pub stream : List Frame → Bytes
stream [] = []
stream (f ∷ fs) = frame_bytes f ++ stream fs

abbrev pub IsFrame : Frame → Type 0
IsFrame f = (f.command < 2 ^ 8) × (length f.body < 2 ^ 16)

-- The packet that the handlers should see.
abbrev pub packet_of : Frame → MqttPacket
packet_of f = record {
  command = f.command;
  mid = 0;
  remaining_length = length f.body;
  pos = 0;
  payload = elim f.body [ [] ↦ none | b ∷ bs ↦ some (b ∷ bs) ];
}

-- A session that has seen no CONNECT refuses every other packet.
abbrev pub refused : Frame → Session → Bool
refused f s = is_init_new s.status && not (high_nibble f.command == Command.connect)

-- The packets one after the other, up to the first that fails.
unfoldable pub run_frames : Json → List Frame → Session → Result (Session × ℕ)
run_frames J [] s = ok (s, Code.success)
run_frames J (f ∷ fs) s = if refused f s then ok (s, Code.protocol) else do
  (s', rc) ← packet_handle J (packet_of f) s
  if rc == 0 then run_frames J fs s' else ok (s', rc)

pub frame_length : (f : Frame) → length (frame_bytes f) ≡ length f.body + count_of f + 1
frame_length f = omega (arith, length-append (encode_remaining (length f.body)) f.body)

-- What the decoder leaves begins with the body, which is the payload.
received_body :
    (n cmd count : ℕ) (body tail : Bytes)
    → cmd < 2 ^ 8
    → length body < 2 ^ 16
    → length body + count + 1 ≤ n
    → n < 2 ^ 31
    → received n cmd (length body) count (body ++ tail)
      ≡ packet_of (record { command = cmd; body = body })
unfolding set_command new_packet set_receive_payload
received_body n cmd count [] tail hc hb hn small = ground arith
received_body n cmd count (b ∷ bs) tail hc hb hn small =
    ground (arith, take-append (b ∷ bs) tail, size)
  where
    size : length (b ∷ bs) % 2 ^ 16 ≡ length (b ∷ bs)
    size = omega arith

recv_nonempty :
    (J : Json) (buffer : Bytes) (n : ℕ) (s : Session)
    → 0 < n
    → process_recv_msg J buffer n s ≡ process_bytes J buffer n buffer s
unfolding process_recv_msg
recv_nonempty J buffer n s h = rw (==_ne n 0 (omega arith))

bytes_step :
    (J : Json) (buffer : Bytes) (n : ℕ) (f : Frame) (tail : Bytes) (s : Session)
    → IsFrame f
    → length f.body + count_of f + 1 ≤ n
    → n < 2 ^ 31
    → process_bytes J buffer n
        (f.command ∷ (encode_remaining (length f.body) ++ (f.body ++ tail)))
        s
      ≡ (if refused f s
          then ok (record { session = s; rc = Code.protocol; buffer = buffer; left = pos n })
          else (packet_handle J (packet_of f) s >>= λ done.
              ok (finish_recv_msg buffer n (length f.body) (count_of f) done)))
unfolding process_bytes
bytes_step J buffer n f tail s h hn small = rw (read, take_over)
  where
    read :
        decode_remaining n (encode_remaining (length f.body) ++ (f.body ++ tail)) 0 1 0
        ≡ decoded (length f.body) (count_of f) (f.body ++ tail)
    read = decode-encode n (length f.body) (f.body ++ tail) (omega arith) (omega arith)

    take_over : received n f.command (length f.body) (count_of f) (f.body ++ tail) ≡ packet_of f
    take_over = received_body n f.command (count_of f) f.body tail h.0 h.1 hn small

module _ (f : Frame) (rest slack : Bytes) where
  -- The buffer, and the number of bytes received into it.
  abbrev pub whole : Bytes
  whole = frame_bytes f ++ (rest ++ slack)

  abbrev pub n_len : ℕ
  n_len = length f.body + count_of f + 1 + length rest

  -- What the loop goes on with after a success.
  abbrev pub moved : Bytes
  moved = after_shift whole (count_of f + 1 + length f.body) n_len (pos (length rest))

module _ (f : Frame) (rest slack : Bytes) (h : IsFrame f) where
  pub frame_step :
      (J : Json) (s : Session)
      → n_len f rest slack < 2 ^ 31
      → process_recv_msg J (whole f rest slack) (n_len f rest slack) s ≡ (
          if refused f s
          then ok (record {
            session = s;
            rc = Code.protocol;
            buffer = (whole f rest slack);
            left = pos (n_len f rest slack);
          })
          else (packet_handle J (packet_of f) s >>= λ done. ok (
              finish_recv_msg
                (whole f rest slack)
                (n_len f rest slack)
                (length f.body)
                (count_of f)
                done)))
  frame_step J s small =
      recv_nonempty J (whole f rest slack) (n_len f rest slack) s (omega arith)
      ∙ ap
          (λ bytes. process_bytes J (whole f rest slack) (n_len f rest slack) (f.command ∷ bytes) s)
          (append_assoc (encode_remaining (length f.body)) f.body (rest ++ slack))
      ∙ bytes_step J (whole f rest slack) (n_len f rest slack) f (rest ++ slack) s h (omega arith)
          small

  pub finish_ok :
      (s : Session)
      → n_len f rest slack < 2 ^ 31
      → finish_recv_msg
          (whole f rest slack)
          (n_len f rest slack)
          (length f.body)
          (count_of f)
          (s, 0)
        ≡ record { session = s; rc = 0; buffer = moved f rest slack; left = pos (length rest) }
  unfolding finish_recv_msg
  finish_ok s small =
      let left =
        signed32-sub32 (n_len f rest slack) (length f.body + count_of f + 1) (omega arith)
          (omega arith) in
      let rest' : n_len f rest slack - (length f.body + count_of f + 1) ≡ length rest =
        omega arith in
      let offset : 1
            + count_of f
            + (if takes_payload (n_len f rest slack) (length f.body) (count_of f)
                then length f.body
                else 0)
          ≡ count_of f + 1 + length f.body =
        ground arith in
      rw (left, rest', offset)

pub finish_failed :
    (buffer : Bytes) (n total count : ℕ) (s : Session) (rc : ℕ)
    → finish_recv_msg buffer n total count (s, suc rc)
      ≡ record { session = s; rc = suc rc; buffer = buffer; left = pos n }
unfolding finish_recv_msg
finish_failed buffer n total count s rc = rw (==_ne (suc rc) 0 (omega arith))

-- The bytes behind a prefix come to the front of the buffer.
pub after_shift_front :
    (xs rest slack : Bytes) (n : ℕ)
    → 0 < length rest
    → after_shift (xs ++ (rest ++ slack)) (length xs) n (pos (length rest))
      ≡ rest ++ (replicate (n - length rest) 0 ++ drop n (xs ++ (rest ++ slack)))
after_shift_front xs [] slack n h = absurd (omega arith)
after_shift_front xs (r ∷ rs) slack n h =
    rw (drop-append xs ((r ∷ rs) ++ slack), take-append rs slack)

-- The loop after one call.
abbrev pub resume : ℕ → Json → Step → Result (Session × ℕ)
resume fuel J step =
    if step.rc == 0
    then process_loop fuel J step.buffer step.left step.session
    else ok (step.session, step.rc)

pub loop_pos :
    (fuel : ℕ) (J : Json) (buffer : Bytes) (n : ℕ) (s : Session)
    → 0 < n
    → process_loop (suc fuel) J buffer (pos n) s ≡ (process_recv_msg J buffer n s >>= resume fuel J)
unfolding process_loop
loop_pos fuel J buffer zero s h = absurd (omega arith)
loop_pos fuel J buffer (suc n) s h = refl

pub loop_done :
    (fuel : ℕ) (J : Json) (buffer : Bytes) (s : Session)
    → process_loop fuel J buffer (pos 0) s ≡ ok (s, Code.success)
unfolding process_loop
loop_done zero J buffer s = refl
loop_done (suc fuel) J buffer s = refl

-- Where no bytes are left the buffer does not matter.
pub loop_buffer :
    (fuel : ℕ) (J : Json) (b c : Bytes) (n : ℕ) (s : Session)
    → (0 < n → b ≡ c)
    → process_loop fuel J b (pos n) s ≡ process_loop fuel J c (pos n) s
loop_buffer fuel J b c zero s h = loop_done fuel J b s ∙ sym (loop_done fuel J c s)
loop_buffer fuel J b c (suc n) s h =
    ap (λ x. process_loop fuel J x (pos (suc n)) s) (h (omega arith))
