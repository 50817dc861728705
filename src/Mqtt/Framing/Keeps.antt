-- ===== src/Mqtt/Framing/Keeps.antt =====
-- What the receive loop of a device's session keeps, for any relation of the session before and
-- behind that the handlers have: `ProcessRecvMsg` of MqttServer.cpp.
use pushserver.Prelude.{
  ℕ, zero, suc, ◌≡◌, refl, [], ◌∷◌, not, ◌&&◌, ◌==◌, Bytes, ℤ, pos, negsuc, Ends, Ends-bind,
  Ends-weaken, Ends-if, arith,
}
use pushserver.Json.{Json}
use pushserver.Mqtt.Packet.Command
use pushserver.Mqtt.Packet.{MqttPacket}
use pushserver.Mqtt.Session.{Session, packet_handle, high_nibble, is_init_new}
use pushserver.Mqtt.Framing.{
  Decoded, too_long, outside, decoded, process_frame, process_bytes, process_recv_msg, process_loop,
  received, finish_recv_msg, decode_remaining,
}

-- The members that say who the session is, and the registry.
abbrev pub SameCore : Session → Session → Type 0
SameCore s s' =
    (s'.self ≡ s.self)
    × (s'.status ≡ s.status)
    × (s'.client_id ≡ s.client_id)
    × (s'.registry ≡ s.registry)

module _ (J : Json) (R : Session → Session → Type 0)
    (R-trans : (s t u : Session) → R s t → R t u → R s u)
    (R-core : (s s' : Session) → SameCore s s' → R s s')
    (R-handle : (p : MqttPacket) (s : Session)
      → Ends (λ done. R s done.0) (packet_handle J p s)) where
  R-refl : (s : Session) → R s s
  R-refl s = R-core s s (refl, refl, refl, refl)

  finish-keeps :
      (buffer : Bytes) (n_len total count : ℕ) (s : Session) (done : Session × ℕ)
      → R s done.0
      → R s (finish_recv_msg buffer n_len total count done).session
  unfolding finish_recv_msg
  finish-keeps buffer n_len total count s done h = ground arith

  frame-keeps :
      (buffer : Bytes) (n_len cmd : ℕ) (d : Decoded) (s : Session)
      → Ends (λ step. R s step.session) (process_frame J buffer n_len cmd d s)
  unfolding process_frame
  frame-keeps buffer n_len cmd too_long s = R-refl s
  frame-keeps buffer n_len cmd outside s = tt
  frame-keeps buffer n_len cmd (decoded total count rest) s =
      Ends-bind (λ done. R s done.0) (λ step. R s step.session)
        (packet_handle J (received n_len cmd total count rest) s) _ (R-handle _ s)
        (λ done h. finish-keeps buffer n_len total count s done h)

  bytes-keeps :
      (buffer : Bytes) (n_len : ℕ) (bytes : Bytes) (s : Session)
      → Ends (λ step. R s step.session) (process_bytes J buffer n_len bytes s)
  unfolding process_bytes
  bytes-keeps buffer n_len [] s = tt
  bytes-keeps buffer n_len (cmd ∷ rest) s =
      Ends-if (λ step. R s step.session)
        (is_init_new s.status && not (high_nibble cmd == Command.connect)) _ _ (λ e. R-refl s)
        (λ e. frame-keeps buffer n_len cmd (decode_remaining n_len rest 0 1 0) s)

  recv-keeps :
      (buffer : Bytes) (n_len : ℕ) (s : Session)
      → Ends (λ step. R s step.session) (process_recv_msg J buffer n_len s)
  unfolding process_recv_msg
  recv-keeps buffer n_len s =
      Ends-if (λ step. R s step.session) (n_len == 0) _ _ (λ e. R-refl s)
        (λ e. bytes-keeps buffer n_len buffer s)

  pub process_loop-keeps :
      (fuel : ℕ) (buffer : Bytes) (left : ℤ) (s : Session)
      → Ends (λ done. R s done.0) (process_loop fuel J buffer left s)
  unfolding process_loop
  process_loop-keeps fuel buffer (negsuc n) s = R-refl s
  process_loop-keeps fuel buffer (pos zero) s = R-refl s
  process_loop-keeps zero buffer (pos (suc n)) s = tt
  process_loop-keeps (suc fuel) buffer (pos (suc n)) s =
      Ends-bind (λ step. R s step.session) (λ done. R s done.0)
        (process_recv_msg J buffer (suc n) s) _ (recv-keeps buffer (suc n) s)
        (λ step h.
          Ends-if (λ done. R s done.0) (step.rc == 0) _ _
            (λ e.
              Ends-weaken (λ done. R step.session done.0) (λ done. R s done.0)
                (process_loop fuel J step.buffer step.left step.session)
                (process_loop-keeps fuel step.buffer step.left step.session)
                (λ done k. R-trans s step.session done.0 h k))
            (λ e. h))
