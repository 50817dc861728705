-- ===== src/Tls/Android.antt =====
-- SslAndroidTcpSocket.cpp: the TLS socket of the C2DM client, with the messages that wait while
-- OpenSSL is blocked. Of `OpenSSL` and the class TCPSocket the answers are passed in.
pub mod Waiting
use pushserver.Prelude.{
  ℕ, zero, suc, ◌+◌, List, [], ◌∷◌, ◌++◌, Bool, true, false, Option, none, some, Bytes, Result, ok,
  thrown, overrun, stuck, ◌>>=◌, length, take, ◌==◌, if◌then◌else◌,
}
use pushserver.Tls.{
  Answers, SslError, error_none, want_write, want_read, broken, Socket, reset, establish, use_ssl,
}

-- `RequestEvent(EV_WR)`, and the task's own signal.
pub data Wake : Type 0 where
  requests_write : Wake
  signals_write : Wake

-- `tls` holds the objects of OpenSSL, and `up` is `connected`. `waiting` is `fMsgList`, and
-- `written` what OpenSSL took, in pieces, newest first.
pub record AndroidSocket : Type 0 where
  pub tls : Socket
  pub up : Bool
  pub waiting : List Bytes
  pub written : List Bytes
  pub wakes : List Wake

unfoldable pub android_reset : AndroidSocket → Result AndroidSocket
unfolding reset
android_reset s = do tls ← reset s.tls; ok (record s { tls = tls; up = false })

unfoldable pub android_connect : Answers → AndroidSocket → Result (AndroidSocket × Bool)
unfolding android_reset establish
android_connect answers s = do
  s' ← android_reset s
  let made = establish answers answers.new_context s'.tls
  ok (record s' { tls = made.0 }, made.1)

-- The loop of `Initialize`: `left` is how many attempts are left behind the present one.
abbrev pub again :
    Result (AndroidSocket × Bool) → Bool → AndroidSocket → Result (AndroidSocket × Bool)
again more true s = ok (s, true)
again more false s = more

unfoldable pub try_connect : ℕ → (ℕ → Answers) → ℕ → AndroidSocket → Result (AndroidSocket × Bool)
unfolding android_connect
try_connect zero answers i s = android_connect (answers i) s
try_connect (suc left) answers i s =
    android_connect (answers i) s >>= λ p. again (try_connect left answers (i + 1) p.0) p.1 p.0

-- `open_error` is what `TCPSocket::Open` returns; the number returned is the error, or 1 where the
-- connection was made.
unfoldable pub android_initialize : ℕ → (ℕ → Answers) → AndroidSocket → Result (AndroidSocket × ℕ)
unfolding try_connect
android_initialize open_error answers s =
    if open_error == 0
    then (try_connect 5 answers 0 s >>= λ p. ok (p.0, if p.1 then 1 else 0))
    else ok (s, open_error)

-- The constructor: `none` is the end of the process.
unfoldable pub construct : ℕ → (ℕ → Answers) → AndroidSocket → Result (Option AndroidSocket)
unfolding android_initialize
construct open_error answers s = android_initialize open_error answers s >>= λ p.
    ok (if p.1 == 1 then some (record p.0 { up = true }) else none)

abbrev pub wake : Wake → AndroidSocket → AndroidSocket
wake w s = record s { wakes = w ∷ s.wakes }

-- Whether the caller is to connect again.
abbrev pub after_android_send : SslError → Bytes → AndroidSocket → AndroidSocket × Bool
after_android_send error_none bytes s = (record s { written = bytes ∷ s.written }, false)
after_android_send want_write bytes s =
    (wake requests_write (record s { waiting = s.waiting ++ (bytes ∷ []) }), false)
after_android_send want_read bytes s = (s, true)
after_android_send broken bytes s = (s, true)

unfoldable pub android_send : SslError → Bytes → AndroidSocket → Result (AndroidSocket × Bool)
android_send e bytes s = use_ssl s.tls.ssl s.tls.live_ssl (ok (after_android_send e bytes s))

-- What `SSL_read` returns is handed on as the length.
abbrev pub after_android_read : SslError → AndroidSocket → AndroidSocket × Bool
after_android_read error_none s = (s, false)
after_android_read want_write s = (wake requests_write s, false)
after_android_read want_read s = (s, true)
after_android_read broken s = (s, true)

unfoldable pub android_read : SslError → ℕ → AndroidSocket → Result (AndroidSocket × Bool × ℕ)
android_read e ret s =
    let done = after_android_read e s in use_ssl s.tls.ssl s.tls.live_ssl (ok (done.0, done.1, ret))

-- The write event. `taken` is what `SSL_write` returns, 0 for an error; what it took of a message
-- that it did not take whole is sent again with the rest.
abbrev pub resent : List Bytes → AndroidSocket → AndroidSocket
resent [] s = record s { waiting = [] }
resent (m ∷ ms) s = wake signals_write (record s { waiting = m ∷ ms })

abbrev pub resend : ℕ → Bytes → List Bytes → AndroidSocket → AndroidSocket
resend zero m ms s = s
resend (suc n) m ms s =
    if suc n == length m
    then resent ms (record s { written = m ∷ s.written })
    else wake requests_write (record s { written = take (suc n) m ∷ s.written })

abbrev pub write_waiting : ℕ → List Bytes → AndroidSocket → Result AndroidSocket
write_waiting taken [] s = ok s
write_waiting taken (m ∷ ms) s = use_ssl s.tls.ssl s.tls.live_ssl (ok (resend taken m ms s))

-- `Run`; the result says whether the task is deleted.
unfoldable pub android_run : Bool → Bool → ℕ → AndroidSocket → Result (AndroidSocket × Bool)
android_run killed writes taken s =
    let resent_ = write_waiting taken s.waiting s in
    if killed
    then ok (s, true)
    else (if writes then (resent_ >>= λ s'. ok (s', false)) else ok (s, false))
