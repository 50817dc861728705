-- ===== src/Provider/Stream.antt =====
-- TCPSslRequestStream.cpp and SslTcpClientSocket.cpp: what a TLS session reads of its connection.
-- OpenSSL is not part of the repository: the bytes that `SSL_read` stores and its error are passed
-- in. The assertion that a length is not 0 is left out, and so is the printing of addresses.
pub mod Session
pub mod Cleanup
use pushserver.Prelude.{
  ℕ, ◌+◌, ◌-◌, ◌^◌, List, [], ◌∷◌, ◌++◌, Bool, true, false, Bytes, Result, ok, overrun, thrown,
  stuck, ◌>>=◌, length, drop, take, ltb, ◌==◌, if◌then◌else◌,
}
use pushserver.Mqtt.Run.{ZqError, no_error, request_arrived, too_big, again, other}
use pushserver.Tls.{SslError, error_none, want_write, want_read, broken}

-- `SslTCPClientSocket::Read`: whether to connect again, whether the socket is asked for an event,
-- and the result of `SSL_read` as a length of 32 bits, which is -1 for every error.
pub record ClientRead : Type 0 where
  pub reconnect : Bool
  pub waits_write : Bool
  pub received : ℕ

unfoldable pub client_read : SslError → Bytes → ClientRead
client_read error_none arrived = record {
  reconnect = false;
  waits_write = false;
  received = length arrived;
}
client_read want_write arrived = record {
  reconnect = false;
  waits_write = true;
  received = 2 ^ 32 - 1;
}
client_read want_read arrived = record {
  reconnect = true;
  waits_write = false;
  received = 2 ^ 32 - 1;
}
client_read broken arrived = record { reconnect = true; waits_write = false; received = 2 ^ 32 - 1 }

-- `buffer` has 2048 bytes; `offset` is `fCurOffset`, and `prints` is `fPrintTCP`.
pub record RequestStream : Type 0 where
  pub buffer : Bytes
  pub offset : ℕ
  pub prints : Bool

-- What `SSL_read` has stored at the front of the buffer.
abbrev pub stored : Bytes → RequestStream → RequestStream
stored arrived s = record s { buffer = arrived ++ drop (length arrived) s.buffer }

-- `fRequestBuffer[fCurOffset] = '\0'` before the request is printed.
abbrev pub terminate : RequestStream → Result RequestStream
terminate s =
    if s.prints
    then (if ltb s.offset 2048
        then ok (record s { buffer = take s.offset s.buffer ++ (0 ∷ drop (s.offset + 1) s.buffer) })
        else overrun)
    else ok s

abbrev pub arrived_request : RequestStream → Result (RequestStream × ZqError)
arrived_request s = terminate s >>= λ s'. ok (s', request_arrived)

-- Behind the read, whose `true` is an error 1, which is neither `EAGAIN` nor 0.
abbrev pub after_client_read : ClientRead → RequestStream → Result (RequestStream × ZqError)
after_client_read r s =
    let s' = record s { offset = r.received } in
    let served = arrived_request s' in
    if r.reconnect then ok (s, other) else (if r.received == 2047 then ok (s', too_big) else served)

-- The loop returns in its first round.
unfoldable pub read_request : SslError → Bytes → RequestStream → Result (RequestStream × ZqError)
unfolding client_read
read_request e arrived s =
    after_client_read (client_read e arrived) (stored arrived (record s { offset = 0 }))
