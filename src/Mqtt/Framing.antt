-- ===== src/Mqtt/Framing.antt =====
-- `MqttServer::ProcessRecvMsg` of MqttServer.cpp, and the loop of `MqttServer::Run` that calls it
-- until the received bytes are used up. The buffer is the whole array behind `pBuffer`, which is a
-- member of the input stream and never NULL; `n_len` counts the bytes received into it.
pub mod Remaining
pub mod Frames
pub mod Loop
pub mod Bounds
pub mod Safety
pub mod Keeps
use pushserver.Prelude.{
  ℕ, zero, suc, ◌+◌, ◌-◌, ◌*◌, ◌/◌, ◌%◌, ◌^◌, List, [], ◌∷◌, ◌++◌, Bool, true, false, ◌&&◌, ◌||◌,
  not, Bytes, Result, ok, overrun, stuck, ◌>>=◌, ℤ, pos, negsuc, signed32, sub32, length, take,
  drop, replicate, ltb, leb, ◌==◌, if◌then◌else◌,
}
use pushserver.Json.{Json}
use pushserver.Mqtt.Packet.Code
use pushserver.Mqtt.Packet.Command
use pushserver.Mqtt.Packet.{MqttPacket, new_packet, set_command, set_receive_payload}
use pushserver.Mqtt.Session.{Session, packet_handle, high_nibble, is_init_new}

-- The length field: what it says, how many bytes it has, and the bytes behind it.
pub data Decoded : Type 0 where
  too_long : Decoded
  outside : Decoded
  decoded : ℕ → ℕ → Bytes → Decoded

-- `b & 128`.
abbrev pub has_more : ℕ → Bool
has_more b = b / 128 % 2 == 1

-- The do-while loop; the list is the buffer from `buf` on, and `buf - pBuffer` is one more than
-- the count. The pointer may reach `pBuffer + nLen`, one past the received bytes.
unfoldable pub decode_remaining : ℕ → Bytes → ℕ → ℕ → ℕ → Decoded
decode_remaining n_len [] count mult total = if ltb 4 (count + 1) then too_long else outside
decode_remaining n_len (b ∷ rest) count mult total =
    let count' = count + 1 in
    let total' = (total + b % 128 * mult) % 2 ^ 32 in
    let more = decode_remaining n_len rest count' (mult * 128 % 2 ^ 32) total' in
    if ltb 4 count'
    then too_long
    else (if has_more b && leb (count' + 1) n_len then more else decoded total' count' rest)

-- What a call leaves: the state, its result, the buffer and the new length.
pub record Step : Type 0 where
  pub session : Session
  pub rc : ℕ
  pub buffer : Bytes
  pub left : ℤ

-- `memmove(pBuffer, buf, nLen)` and `memset` of what is behind, where bytes are left.
abbrev pub shift : Bytes → ℕ → ℕ → ℕ → Bytes
shift buffer offset buf_len n =
    take n (drop offset buffer) ++ (replicate (buf_len - n) 0 ++ drop buf_len buffer)

abbrev pub after_shift : Bytes → ℕ → ℕ → ℤ → Bytes
after_shift buffer offset buf_len (pos zero) = buffer
after_shift buffer offset buf_len (pos (suc n)) = shift buffer offset buf_len (suc n)
after_shift buffer offset buf_len (negsuc n) = buffer

-- The packet is taken over whole, or with no payload where its length is 0 or more than arrived.
abbrev pub takes_payload : ℕ → ℕ → ℕ → Bool
takes_payload n_len total count = ltb 0 total && leb ((total + count + 1) % 2 ^ 32) n_len

abbrev pub received : ℕ → ℕ → ℕ → ℕ → Bytes → MqttPacket
received n_len cmd total count rest =
    let p = (set_command cmd (new_packet 0)).0 in
    if takes_payload n_len total count then set_receive_payload rest total p else p

unfoldable pub finish_recv_msg : Bytes → ℕ → ℕ → ℕ → Session × ℕ → Step
finish_recv_msg buffer n_len total count (s, rc) =
    let left = signed32 (sub32 n_len (total + count + 1)) in
    let offset = 1 + count + (if takes_payload n_len total count then total else 0) in
    if rc == Code.success
    then record { session = s; rc = rc; buffer = after_shift buffer offset n_len left; left = left }
    else record { session = s; rc = rc; buffer = buffer; left = pos n_len }

unfoldable pub process_frame : Json → Bytes → ℕ → ℕ → Decoded → Session → Result Step
unfolding set_command new_packet set_receive_payload finish_recv_msg
process_frame J buffer n_len cmd too_long s =
    ok (record { session = s; rc = Code.protocol; buffer = buffer; left = pos n_len })
process_frame J buffer n_len cmd outside s = overrun
process_frame J buffer n_len cmd (decoded total count rest) s = do
  done ← packet_handle J (received n_len cmd total count rest) s
  ok (finish_recv_msg buffer n_len total count done)

unfoldable pub process_bytes : Json → Bytes → ℕ → Bytes → Session → Result Step
unfolding decode_remaining process_frame
process_bytes J buffer n_len [] s = overrun
process_bytes J buffer n_len (cmd ∷ rest) s =
    if is_init_new s.status && not (high_nibble cmd == Command.connect)
    then ok (record { session = s; rc = Code.protocol; buffer = buffer; left = pos n_len })
    else process_frame J buffer n_len cmd (decode_remaining n_len rest 0 1 0) s

unfoldable pub process_recv_msg : Json → Bytes → ℕ → Session → Result Step
unfolding process_bytes
process_recv_msg J buffer n_len s =
    if n_len == 0
    then ok (record { session = s; rc = Code.protocol; buffer = buffer; left = pos n_len })
    else process_bytes J buffer n_len buffer s

-- `while(err == ZQ_NoErr && nLen > 0) err = ProcessRecvMsg(pBuffer, nLen)`, with fuel.
unfoldable pub process_loop : ℕ → Json → Bytes → ℤ → Session → Result (Session × ℕ)
process_loop fuel J buffer (negsuc n) s = ok (s, Code.success)
process_loop fuel J buffer (pos zero) s = ok (s, Code.success)
process_loop zero J buffer (pos (suc n)) s = stuck
process_loop (suc fuel) J buffer (pos (suc n)) s = do
  step ← process_recv_msg J buffer (suc n) s
  let next = process_loop fuel J step.buffer step.left step.session
  if step.rc == 0 then next else ok (step.session, step.rc)
