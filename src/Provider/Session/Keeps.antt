-- ===== src/Provider/Session/Keeps.antt =====
-- What the receive loop of a provider's session keeps, for any relation of the registry and the
-- devices before and behind that `PacketHandle` has: SslSvrSession.cpp.
use pushserver.Prelude.{
  ℕ, zero, suc, ◌==◌, Bytes, Result, ◌>>=◌, Ends, Ends-bind, Ends-any, Ends-map, Ends-weaken,
  Ends-if, ltb, leb, ◌+◌,
}
use pushserver.Json.{Json}
use pushserver.Provider.Packet.{ProviderPacket}
use pushserver.Provider.Session.{
  World, Step, slice, byte_at, uint16, packet_handle, move_rest, build, process_payload,
  process_recv_msg, process_loop,
}

module _ (J : Json) (R : World → World → Type 0) (R-refl : (w : World) → R w w)
    (R-trans : (u v w : World) → R u v → R v w → R u w)
    (R-handle : (p : ProviderPacket) (w : World) → Ends (R w) (packet_handle J p w)) where
  move-keeps :
      (buffer : Bytes) (n_len used left : ℕ) (w w' : World)
      → R w w'
      → Ends (λ step. R w step.world) (move_rest buffer n_len used left w')
  unfolding move_rest
  move-keeps buffer n_len used left w w' h =
      Ends-if (λ step. R w step.world) (left == 0) _ _ (λ e. h)
        (λ e. Ends-map (λ step. R w step.world) (slice buffer used left) _ (λ rest. h))

  payload-keeps :
      (buffer : Bytes) (n_len cmd token_len : ℕ) (token : Bytes) (payload_len : ℕ) (w : World)
      → Ends
          (λ step. R w step.world)
          (process_payload J buffer n_len cmd token_len token payload_len w)
  unfolding process_payload
  payload-keeps buffer n_len cmd token_len token payload_len w =
      Ends-if (λ step. R w step.world) (ltb n_len (payload_len + 35)) _ _ (λ e. R-refl w)
        (λ e.
          Ends-bind (λ payload. Unit) (λ step. R w step.world)
            (slice buffer (5 + token_len) payload_len) _ (Ends-any (λ payload. Unit) _ (λ x. tt))
            (λ payload h.
              Ends-bind (R w) (λ step. R w step.world)
                (packet_handle J (build cmd token_len token payload_len payload) w) _ (R-handle _ w)
                (λ w' r. move-keeps buffer n_len _ _ w w' r)))

  recv-keeps :
      (buffer : Bytes) (n_len : ℕ) (w : World)
      → Ends (λ step. R w step.world) (process_recv_msg J buffer n_len w)
  unfolding process_recv_msg
  recv-keeps buffer n_len w =
      Ends-if (λ step. R w step.world) (leb n_len 35) _ _ (λ e. R-refl w)
        (λ e. any (byte_at buffer 0) _ (λ cmd. any (byte_at buffer 1) _ (λ msb.
          any (byte_at buffer 2) _ (λ lsb. any (slice buffer 3 (uint16 msb lsb)) _ (λ token.
            any (byte_at buffer (3 + uint16 msb lsb)) _ (λ msb'.
              any (byte_at buffer (4 + uint16 msb lsb)) _ (λ lsb'.
                payload-keeps buffer n_len cmd (uint16 msb lsb) token (uint16 msb' lsb') w)))))))
    where
      any :
          {A : Type 0} (m : Result A) (f : A → Result Step)
          → ((a : A) → Ends (λ step. R w step.world) (f a))
          → Ends (λ step. R w step.world) (m >>= f)
      any m f h =
          Ends-bind (λ a. Unit) (λ step. R w step.world) m f (Ends-any (λ a. Unit) m (λ a. tt))
            (λ a u. h a)

  pub process_loop-keeps :
      (fuel : ℕ) (buffer : Bytes) (n : ℕ) (w : World)
      → Ends (λ done. R w done.0) (process_loop fuel J buffer n w)
  unfolding process_loop
  process_loop-keeps fuel buffer zero w = R-refl w
  process_loop-keeps zero buffer (suc n) w = tt
  process_loop-keeps (suc fuel) buffer (suc n) w =
      Ends-bind (λ step. R w step.world) (λ done. R w done.0) (process_recv_msg J buffer (suc n) w)
        _ (recv-keeps buffer (suc n) w)
        (λ step h.
          Ends-if (λ done. R w done.0) (step.rc == 0) _ _
            (λ e.
              Ends-weaken (λ done. R step.world done.0) (λ done. R w done.0)
                (process_loop fuel J step.buffer step.left step.world)
                (process_loop-keeps fuel step.buffer step.left step.world)
                (λ done k. R-trans w step.world done.0 h k))
            (λ e. h))
