-- ===== src/Mqtt/Run/Keeps.antt =====
-- What a run of a device's session keeps, for any relation of the session before and behind that the
-- handlers have: `Run` of MqttServer.cpp.
use pushserver.Prelude.{
  ℕ, refl, [], ◌∷◌, false, ◌||◌, pos, Ends, Ends-bind, Ends-weaken, Ends-if, List, arith,
}
use pushserver.Json.{Json}
use pushserver.Mqtt.Packet.{MqttPacket}
use pushserver.Mqtt.Session.{Session, packet_handle}
use pushserver.Mqtt.Framing.{process_loop}
use pushserver.Mqtt.Framing.Keeps.{SameCore, process_loop-keeps}
use pushserver.Mqtt.Run.{Turn, Events, flush_reply, serve_turn, write_turn, run_loop, run}

module _ (J : Json) (R : Session → Session → Type 0)
    (R-trans : (s t u : Session) → R s t → R t u → R s u)
    (R-core : (s s' : Session) → SameCore s s' → R s s')
    (R-handle : (p : MqttPacket) (s : Session)
      → Ends (λ done. R s done.0) (packet_handle J p s)) where
  flush-core : (t : Turn) (done : Session × ℕ) → SameCore done.0 (flush_reply t done)
  unfolding flush_reply
  flush-core t done = ground arith

  write-core : (s : Session) → SameCore s (write_turn s)
  unfolding write_turn
  write-core s = ground arith

  serve-keeps : (t : Turn) (s : Session) → Ends (R s) (serve_turn J t s)
  unfolding serve_turn
  serve-keeps t s =
      Ends-bind (λ done. R s done.0) (R s) (process_loop t.n_len J t.buffer (pos t.n_len) s) _
        (process_loop-keeps J R R-trans R-core R-handle t.n_len t.buffer (pos t.n_len) s)
        (λ done h.
          R-trans s done.0 (flush_reply t done) h
            (R-core done.0 (flush_reply t done) (flush-core t done)))

  loop-keeps :
      (holders : ℕ) (ts : List Turn) (ev : Events) (s : Session)
      → Ends (λ done. R s done.0) (run_loop J holders ts ev s)
  unfolding run_loop
  loop-keeps holders [] ev s = tt
  loop-keeps holders (t ∷ ts) ev s = ground (
    arith,
    R-core s s (refl, refl, refl, refl),
    loop-keeps holders ts (record ev { reads = false }) s,
    loop-keeps holders ts ev s,
    Ends-bind (R s) (λ done. R s done.0) (serve_turn J t s) (run_loop J holders ts ev)
        (serve-keeps t s)
        (λ s' h.
          Ends-weaken (λ done. R s' done.0) (λ done. R s done.0) (run_loop J holders ts ev s')
            (loop-keeps holders ts ev s') (λ done k. R-trans s s' done.0 h k)),
    Ends-weaken (λ done. R (write_turn s) done.0) (λ done. R s done.0)
        (run_loop J holders ts (record ev { writes = false }) (write_turn s))
        (loop-keeps holders ts (record ev { writes = false }) (write_turn s))
        (λ done k. R-trans s (write_turn s) done.0 (R-core s (write_turn s) (write-core s)) k),
    loop-keeps holders ts (record ev { zmq = false }) s,
  )

  pub run-keeps :
      (holders : ℕ) (ts : List Turn) (ev : Events) (s : Session)
      → Ends (λ done. R s done.0) (run J holders ts ev s)
  unfolding run
  run-keeps holders ts ev s =
      Ends-if (λ done. R s done.0) (ev.timeout || ev.kill) _ _
        (λ e. R-core s s (refl, refl, refl, refl)) (λ e. loop-keeps holders ts ev s)
