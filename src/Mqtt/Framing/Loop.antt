-- ===== src/Mqtt/Framing/Loop.antt =====
-- The loop of `MqttServer::Run` over the packets in its buffer.
use pushserver.Prelude.{
  ℕ, zero, suc, ◌+◌, ◌-◌, ◌^◌, ◌≤◌, ◌<◌, ◌≡◌, ap, ◌∙◌, List, [], ◌∷◌, ◌++◌, Bytes, ok, ◌>>=◌, All,
  arith, pos, length, drop, replicate, ◌==◌, ==_ne, >>=-congr, if-bind, ok-bind, if◌then◌else◌,
  append_assoc, length-append,
}
use mathlib.Core.Path.{ap₂}
use pushserver.Json.{Json}
use pushserver.Mqtt.Packet.Code
use pushserver.Mqtt.Session.{Session, packet_handle}
use pushserver.Mqtt.Framing.{process_loop, finish_recv_msg}
use pushserver.Mqtt.Framing.Frames.{
  Frame, stream, IsFrame, frame_bytes, count_of, packet_of, refused, run_frames, whole, n_len,
  moved, frame_step, finish_ok, finish_failed, frame_length, after_shift_front, loop_pos, loop_done,
  loop_buffer, resume,
}

-- What stands behind the remaining packets once the first has been moved out.
slack_after : Frame → Bytes → Bytes → Bytes
slack_after f rest slack =
    replicate (n_len f rest slack - length rest) 0 ++ drop (n_len f rest slack) (whole f rest slack)

moved_front :
    (f : Frame) (rest slack : Bytes)
    → 0 < length rest
    → moved f rest slack ≡ rest ++ slack_after f rest slack
unfolding slack_after
moved_front f rest slack h =
    let offset : count_of f + 1 + length f.body ≡ length (frame_bytes f) =
      omega (arith, frame_length f) in
    rw offset (after_shift_front (frame_bytes f) rest slack (n_len f rest slack) h)

-- After one packet the loop stands before the others.
after_packet :
    (J : Json) (fuel : ℕ) (f : Frame) (rest slack : Bytes) (done : Session × ℕ)
    → IsFrame f
    → n_len f rest slack < 2 ^ 31
    → resume fuel J (
        finish_recv_msg (whole f rest slack) (n_len f rest slack) (length f.body) (count_of f) done)
      ≡ (if done.1 == 0
          then process_loop fuel J (rest ++ slack_after f rest slack) (pos (length rest)) done.0
          else ok done)
after_packet J fuel f rest slack (s', zero) h small =
    rw (finish_ok f rest slack h s' small)
      (loop_buffer fuel J _ _ (length rest) s' (moved_front f rest slack))
after_packet J fuel f rest slack (s', suc rc) h small =
    rw (finish_failed (whole f rest slack) (n_len f rest slack) (length f.body) (count_of f) s' rc)
      (rw (==_ne (suc rc) 0 (omega arith)))

stream_length :
    (f : Frame) (rest slack : Bytes) → length (frame_bytes f ++ rest) ≡ n_len f rest slack
stream_length f rest slack = omega (arith, frame_length f, length-append (frame_bytes f) rest)

-- One round of the loop on a buffer that begins with a packet.
loop_round :
    (J : Json) (fuel : ℕ) (f : Frame) (rest slack : Bytes) (s : Session)
    → IsFrame f
    → n_len f rest slack < 2 ^ 31
    → process_loop (suc fuel) J (whole f rest slack) (pos (n_len f rest slack)) s ≡ (
        if refused f s
        then ok (s, Code.protocol)
        else (packet_handle J (packet_of f) s >>= λ done.
            if done.1 == 0
            then process_loop fuel J (rest ++ slack_after f rest slack) (pos (length rest)) done.0
            else ok done))
loop_round J fuel f rest slack s h small =
    loop_pos fuel J (whole f rest slack) (n_len f rest slack) s (omega arith)
    ∙ ap (λ m. m >>= resume fuel J) (frame_step f rest slack h J s small)
    ∙ if-bind (refused f s) _ _ (resume fuel J)
    ∙ ap (λ m. if refused f s then ok (s, Code.protocol) else m)
        (ok-bind (packet_handle J (packet_of f) s) _ (resume fuel J)
          ∙ >>=-congr (packet_handle J (packet_of f) s) _ _
              (λ done. after_packet J fuel f rest slack done h small))

-- On a buffer that begins with whole packets, each with a body of less than 2^16 bytes and less
-- than 2^31 bytes in all, whatever stands behind the received bytes, and with as much fuel as
-- bytes, the receive loop does what the handlers do on these packets one after the other, up to the
-- first that fails: packets that arrive together are cut apart where the client ended them.
pub process_loop-run_frames :
    (J : Json) (fuel : ℕ) (fs : List Frame) (slack : Bytes) (s : Session)
    → All IsFrame fs
    → length (stream fs) < 2 ^ 31
    → length (stream fs) ≤ fuel
    → process_loop fuel J (stream fs ++ slack) (pos (length (stream fs))) s ≡ run_frames J fs s
unfolding run_frames
process_loop-run_frames J fuel [] slack s h small enough = loop_done fuel J slack s
process_loop-run_frames J zero (f ∷ fs) slack s h small enough = absurd (omega arith)
process_loop-run_frames J (suc fuel) (f ∷ fs) slack s h small enough =
    ap₂ (λ b n. process_loop (suc fuel) J b (pos n) s)
      (append_assoc (frame_bytes f) (stream fs) slack) (stream_length f (stream fs) slack)
    ∙ loop_round J fuel f (stream fs) slack s h.0 (omega (arith, stream_length f (stream fs) slack))
    ∙ ap (λ m. if refused f s then ok (s, Code.protocol) else m)
        (>>=-congr (packet_handle J (packet_of f) s) _ _ (λ done.
          ap (λ m. if done.1 == 0 then m else ok done)
            (process_loop-run_frames J fuel fs (slack_after f (stream fs) slack) done.0 h.1
              (omega (arith, stream_length f (stream fs) slack))
              (omega (arith, stream_length f (stream fs) slack)))))
