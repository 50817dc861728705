-- ===== src/Apns/Client/Responses.antt =====
-- The error responses of Apple's service: `OnProcessRecvMsg` of ApsApnsAdvanceClient.cpp.
use pushserver.Prelude.{ℕ, ◌%◌, ◌^◌, ◌<◌, ◌≡◌, ap, ◌∷◌, ◌++◌, true, Bytes, ok, arith, sub32}
use pushserver.Apns.Message.{net32}
use pushserver.Apns.Client.{Client, finds, emit, on_response, on_process_recv_msg}

-- An error response for a message id of 32 bits, whatever follows it, starts a search for the
-- messages from the id modulo 2^16 on, and takes 6 bytes from the unsigned number of those
-- received, also where there were fewer.
pub on_process_recv_msg-net32 :
    (status id n_len : ℕ) (rest : Bytes) (c : Client)
    → id < 2 ^ 32
    → on_process_recv_msg (8 ∷ status ∷ (net32 id ++ rest)) n_len c
      ≡ ok (emit (finds (id % 2 ^ 16)) c, true, sub32 n_len 6)
unfolding on_process_recv_msg on_response
on_process_recv_msg-net32 status id n_len rest c h =
    ap (λ k. ok (emit (finds (k % 2 ^ 16)) c, true, sub32 n_len 6)) (omega arith)
