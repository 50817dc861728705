-- ===== src/Tls/Delivery.antt =====
-- What becomes of a message that a client of SslTcpClient.cpp sends through SslTcpSocket.cpp.
-- SendData of the library hands the message to `Send`, and its error back.
use pushserver.Prelude.{
  ◌≡◌, refl, ◌∙◌, List, [], ◌∷◌, Bool, true, false, Bytes, ok, take_then, arith,
}
use pushserver.Tls.{
  SslError, error_none, want_write, want_read, broken, OsError, no_err, not_connected, in_progress,
  not_enough_space, Socket, send, after_send,
}
use pushserver.Tls.Owned.{IsOwned, use_ssl-IsOwned}
use pushserver.Apns.Client.{Client, on_try_send_msg}

abbrev pub accepts : OsError → Bool
accepts no_err = true
accepts not_connected = false
accepts in_progress = false
accepts not_enough_space = false

-- By the answer of OpenSSL: the socket and the client behind the call.
abbrev pub Outcome : SslError → Bytes → List Bytes → Socket → Socket → Client → Type 0
Outcome error_none m ms s s' c = (s'.written ≡ m ∷ s.written) × (c.messages ≡ ms)
Outcome want_write m ms s s' c = (s' ≡ s) × (c.messages ≡ ms)
Outcome want_read m ms s s' c = (s' ≡ record s { connected = false }) × (c.messages ≡ m ∷ ms)
Outcome broken m ms s s' c = (s' ≡ record s { connected = false }) × (c.messages ≡ m ∷ ms)

module _ (m : Bytes) (c : Client) where
  try_accepted : (ms : List Bytes) → c.messages ≡ m ∷ ms → (on_try_send_msg true c).0.messages ≡ ms
  unfolding on_try_send_msg
  try_accepted [] front = ground arith
  try_accepted (k ∷ ms) front = ground arith

  try_refused :
      (ms : List Bytes) → c.messages ≡ m ∷ ms → (on_try_send_msg false c).0.messages ≡ m ∷ ms
  unfolding on_try_send_msg
  try_refused ms front = ground arith

send_connected :
    (e : SslError) (m : Bytes) (s : Socket)
    → IsOwned s
    → s.connected ≡ true
    → send e m s ≡ ok (after_send e m s)
unfolding send
send_connected e m s v up = take_then _ _ up ∙ use_ssl-IsOwned _ s v up

-- For the message at the front of the client's list, on a connected socket that owns its objects:
-- where OpenSSL takes the message, it is written and leaves the list; where OpenSSL is blocked,
-- nothing is written and the message leaves the list all the same; on any other answer it stays,
-- with those behind it, and the socket is no longer connected.
pub send-on_try_send_msg :
    (e : SslError) (m : Bytes) (ms : List Bytes) (s : Socket) (c : Client)
    → IsOwned s
    → s.connected ≡ true
    → c.messages ≡ m ∷ ms
    → (s' : Socket) × (r : OsError) × (send e m s ≡ ok (s', r))
      × Outcome e m ms s s' (on_try_send_msg (accepts r) c).0
send-on_try_send_msg error_none m ms s c v up front =
    (_, _, send_connected error_none m s v up, (refl, try_accepted m c ms front))
send-on_try_send_msg want_write m ms s c v up front =
    (_, _, send_connected want_write m s v up, (refl, try_accepted m c ms front))
send-on_try_send_msg want_read m ms s c v up front =
    (_, _, send_connected want_read m s v up, (refl, try_refused m c ms front))
send-on_try_send_msg broken m ms s c v up front =
    (_, _, send_connected broken m s v up, (refl, try_refused m c ms front))
