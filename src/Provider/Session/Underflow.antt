-- ===== src/Provider/Session/Underflow.antt =====
-- The length check of `SslSvrSession::ProcessRecvMsg`, SslSvrSession.cpp, which counts the payload
-- and 35 bytes, where a message has its token and 5 bytes besides the payload.
use pushserver.Prelude.{
  ℕ, ◌+◌, ◌^◌, ◌≤◌, ◌<◌, ◌≡◌, ◌∙◌, Bytes, ok, overrun, arith, length, sub32, ==_ne, take_else,
  lt→leb, bind_known, bind_overrun,
}
use pushserver.Json.{Json}
use pushserver.Provider.Session.{World, packet_handle, move_rest, process_recv_msg}
use pushserver.Provider.Session.Frames.{Push, IsFramed, packet_of, parts, used, recv_parts}

-- A length beyond the buffer is an overrun of the `memmove`.
move_overrun :
    (buffer : Bytes) (n_len n left : ℕ) (w : World)
    → 0 < left
    → length buffer < n + left
    → move_rest buffer n_len n left w ≡ overrun
unfolding move_rest
move_overrun buffer n_len n left w some_left beyond =
    take_else _ _ (==_ne left 0 (omega arith))
    ∙ bind_overrun _ (take_else _ _ (lt→leb (n + left) (length buffer) beyond))

-- Where more than 35 bytes of a message in a buffer of less than 2^32 arrived, fewer than it has
-- but no fewer than its payload and 35, and its handler returns, the check lets it pass: the
-- message is read behind the received bytes and handled, the number of the bytes left wraps around
-- to one of about 2^32, and the move of so many bytes leaves the buffer.
pub process_recv_msg-overrun :
    (f : Push) (tail : Bytes) (J : Json) (n_len : ℕ) (w w' : World)
    → IsFramed f
    → 35 < n_len
    → length f.payload + 35 ≤ n_len
    → n_len < used f
    → length (parts f tail) < 2 ^ 32
    → packet_handle J (packet_of f) w ≡ ok w'
    → process_recv_msg J (parts f tail) n_len w ≡ overrun
process_recv_msg-overrun f tail J n_len w w' h long room short fits handled =
    recv_parts f tail J n_len w h long room
    ∙ bind_known _ handled
    ∙ move_overrun (parts f tail) n_len (used f) (sub32 n_len (used f)) w' (omega (arith, h.1, h.2))
        (omega (arith, h.1, h.2))
