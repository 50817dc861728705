-- ===== src/Tls.antt =====
-- SslTcpSocket.cpp: the TLS socket to Apple's service. OpenSSL, the resolver and the class TCPSocket
-- are not part of the repository: what they answer is passed in. The objects of OpenSSL have
-- addresses, and the lists of the live ones show what is freed and what is lost.
pub mod Owned
pub mod Life
pub mod Delivery
pub mod Android
use pushserver.Prelude.{
  ℕ, List, [], ◌∷◌, ◌++◌, Bool, true, false, Option, none, some, Bytes, Result, ok, thrown, overrun,
  stuck, ◌>>=◌, take, length, ltb, ◌==◌, if◌then◌else◌,
}

-- What the calls of one `ssl_connect` answer. A NULL is `none`; `tcp_failed` is the result -1 of
-- `TCPSocket::Connect`, and `tcp_connected` the flag kConnected behind it.
pub record Answers : Type 0 where
  pub new_context : Option ℕ
  pub ca_loaded : Bool
  pub certificate_used : Bool
  pub key_used : Bool
  pub key_matches : Bool
  pub host_found : Bool
  pub tcp_failed : Bool
  pub tcp_connected : Bool
  pub new_ssl : Option ℕ
  pub handshake_done : Bool

-- `SSL_get_error` behind a call of `SSL_write` or `SSL_read`.
pub data SslError : Type 0 where
  error_none : SslError
  want_write : SslError
  want_read : SslError
  broken : SslError

pub data OsError : Type 0 where
  no_err : OsError
  not_connected : OsError
  in_progress : OsError
  not_enough_space : OsError

-- `connected` and `other_flags` are `fState`; `written` is what `SSL_write` took, newest first.
pub record Socket : Type 0 where
  pub context : Option ℕ
  pub ssl : Option ℕ
  pub connected : Bool
  pub other_flags : ℕ
  pub non_blocking : Bool
  pub live_contexts : List ℕ
  pub live_ssl : List ℕ
  pub written : List Bytes

-- `SSL_free` and `SSL_CTX_free`; what is not live is freed twice.
unfoldable pub free : ℕ → List ℕ → Result (List ℕ)
free a [] = overrun
free a (b ∷ live) = let rest = free a live in if a == b then ok live else (rest >>= λ l. ok (b ∷ l))

unfoldable pub free_pointer : Option ℕ → List ℕ → Result (List ℕ)
unfolding free
free_pointer none live = ok live
free_pointer (some a) live = free a live

unfoldable pub reset : Socket → Result Socket
unfolding free_pointer
reset s = do
  live ← free_pointer s.ssl s.live_ssl
  contexts ← free_pointer s.context s.live_contexts
  ok (record s { ssl = none; context = none; live_ssl = live; live_contexts = contexts })

-- From the connection of the socket on. The flag is set before the objects of TLS are made.
abbrev pub handshake : Answers → Option ℕ → Socket → Socket × Bool
handshake answers none s = (s, false)
handshake answers (some a) s =
    (record s { ssl = some a; live_ssl = a ∷ s.live_ssl }, answers.handshake_done)

abbrev pub connect_tcp : Answers → Socket → Socket × Bool
connect_tcp answers s =
    let s' = record s { connected = answers.tcp_connected } in
    if answers.tcp_failed then (s', false) else handshake answers answers.new_ssl s'

-- The steps between the context and the connection, each with its early return.
abbrev pub load : Answers → Socket → Socket × Bool
load answers s =
    if answers.ca_loaded
    then (if answers.certificate_used
        then (if answers.key_used
            then (if answers.key_matches
                then (if answers.host_found then connect_tcp answers s else (s, false))
                else (s, false))
            else (s, false))
        else (s, false))
    else (s, false)

unfoldable pub establish : Answers → Option ℕ → Socket → Socket × Bool
establish answers none s = (s, false)
establish answers (some a) s =
    load answers (record s { context = some a; live_contexts = a ∷ s.live_contexts })

unfoldable pub ssl_connect : Answers → Socket → Result (Socket × Bool)
unfolding reset establish
ssl_connect answers s = do s' ← reset s; ok (establish answers answers.new_context s')

-- Non-blocking where the handshake is done.
abbrev pub initialized : Socket × Bool → Socket × Bool
initialized (s, true) = (record s { non_blocking = true }, true)
initialized (s, false) = (s, false)

unfoldable pub initialize : Answers → Socket → Result (Socket × Bool)
unfolding ssl_connect
initialize answers s = ssl_connect answers s >>= λ p. ok (initialized p)

-- `fState &= kConnected` clears the other flags.
abbrev pub connect_status : Socket × Bool → Socket × OsError
connect_status (s, true) = (record s { other_flags = 0 }, no_err)
connect_status (s, false) = (s, not_enough_space)

unfoldable pub connect : Answers → Socket → Result (Socket × OsError)
unfolding initialize
connect answers s = initialize answers s >>= λ p. ok (connect_status p)

-- The object behind `m_pssl`; NULL and a freed object have none.
abbrev pub is_live : ℕ → List ℕ → Bool
is_live a [] = false
is_live a (b ∷ live) = if a == b then true else is_live a live

abbrev pub use_ssl {ℓ} : {A : Type ℓ} → Option ℕ → List ℕ → Result A → Result A
use_ssl none live m = overrun
use_ssl (some a) live m = if is_live a live then m else overrun

-- `^=` on the flag that has been tested.
abbrev pub drop_connection : Socket → Socket × OsError
drop_connection s = (record s { connected = false }, not_connected)

abbrev pub after_send : SslError → Bytes → Socket → Socket × OsError
after_send error_none bytes s = (record s { written = bytes ∷ s.written }, no_err)
after_send want_write bytes s = (s, no_err)
after_send want_read bytes s = drop_connection s
after_send broken bytes s = drop_connection s

unfoldable pub send : SslError → Bytes → Socket → Result (Socket × OsError)
send e bytes s =
    if s.connected
    then use_ssl s.ssl s.live_ssl (ok (after_send e bytes s))
    else ok (s, not_connected)

-- `SSL_read` is asked for 7 bytes, whatever the length is; `arrived` is what it gives.
abbrev pub after_read : SslError → Bytes → Socket → Socket × OsError × Bytes
after_read error_none arrived s = (s, no_err, take 7 arrived)
after_read want_read arrived s = (s, in_progress, [])
after_read want_write arrived s = (record s { connected = false }, not_connected, [])
after_read broken arrived s = (record s { connected = false }, not_connected, [])

-- The buffer has room for `room` bytes.
abbrev pub fits : ℕ → Socket × OsError × Bytes → Result (Socket × OsError × Bytes)
fits room (s, e, bytes) = if ltb room (length bytes) then overrun else ok (s, e, bytes)

unfoldable pub read : SslError → Bytes → ℕ → Socket → Result (Socket × OsError × Bytes)
read e arrived room s =
    if s.connected
    then use_ssl s.ssl s.live_ssl (fits room (after_read e arrived s))
    else ok (s, not_connected, [])
