-- ===== src/Provider/Stream/Cleanup.antt =====
-- The end of a TLS session: `CleanupRequest` of SslSvrSession.cpp, which reads through
-- TCPSslSessionInterface.cpp and TCPSslRequestStream.cpp until a read fails.
use pushserver.Prelude.{
  ℕ, ◌≡◌, ◌⊎◌, refl, inl, inr, List, [], ◌∷◌, ◌++◌, Bool, true, false, Bytes, Result, ok, stuck,
  All, replicate, if◌then◌else◌,
}
use pushserver.Tls.{SslError, error_none, want_write, want_read, broken}
use pushserver.Provider.Stream.{client_read}

-- `Read` of the stream and of the session: the number of bytes comes back where it is asked for.
unfoldable pub stream_read : Bool → SslError → Bytes → List ℕ × Bool
unfolding client_read
stream_read true e arrived = let r = client_read e arrived in (r.received ∷ [], r.reconnect)
stream_read false e arrived = ([], (client_read e arrived).reconnect)

unfoldable pub session_read : Bool → SslError → Bytes → List ℕ × Bool
unfolding stream_read
session_read asked e arrived = stream_read asked e arrived

-- The loop, over the answers of OpenSSL; those that are left come back, and `stuck` means that it
-- goes on behind them. What was read is dropped.
unfoldable pub cleanup_request : List (SslError × Bytes) → Result (List (SslError × Bytes))
unfolding session_read
cleanup_request [] = stuck
cleanup_request ((e, arrived) ∷ more) =
    let rest = cleanup_request more in if (session_read false e arrived).1 then ok more else rest

-- The answers behind which the loop goes on, and those at which it ends.
abbrev pub IsPassed : SslError × Bytes → Type 0
IsPassed (e, arrived) = (e ≡ error_none) ⊎ (e ≡ want_write)

abbrev pub IsLast : SslError × Bytes → Type 0
IsLast (e, arrived) = (e ≡ want_read) ⊎ (e ≡ broken)

-- The loop ends at the first answer that nothing can be read or that the connection is broken.
pub cleanup_request_ends :
    (read : List (SslError × Bytes)) (last : SslError × Bytes) (more : List (SslError × Bytes))
    → All IsPassed read
    → IsLast last
    → cleanup_request (read ++ last ∷ more) ≡ ok more
unfolding cleanup_request session_read stream_read client_read
cleanup_request_ends [] (e, x) more h (inl b) = rw b refl
cleanup_request_ends [] (e, x) more h (inr b) = rw b refl
cleanup_request_ends ((e, x) ∷ read) last more (inl b, h) l =
    rw b (cleanup_request_ends read last more h l)
cleanup_request_ends ((e, x) ∷ read) last more (inr b, h) l =
    rw b (cleanup_request_ends read last more h l)

-- While OpenSSL is blocked on a write, the loop does not end, however often it reads.
pub cleanup_request_blocked : (n : ℕ) → cleanup_request (replicate n (want_write, [])) ≡ stuck
unfolding cleanup_request session_read stream_read client_read
cleanup_request_blocked ℕ.zero = refl
cleanup_request_blocked (ℕ.suc n) = cleanup_request_blocked n
