-- ===== src/Tests/Sockets.antt =====
-- Tests of the TLS sockets.
use mathlib.Core.List.{Perm}
use pushserver.Prelude.{
  ℕ, ◌≤◌, ◌≡◌, refl, [], ◌∷◌, true, false, none, some, Bytes, codes, ok, overrun,
}
use pushserver.Tls.{
  Answers, SslError, error_none, want_write, OsError, no_err, not_enough_space, Socket, reset,
  connect, send, read,
}
use pushserver.Tls.Android.{AndroidSocket, requests_write, android_send}
use pushserver.Tls.Android.Waiting as Android
use pushserver.Tls.Android.Waiting.{Serves, Serves-perm}
use pushserver.Tls.Owned.{IsHeld, Returns, cleared}
use pushserver.Tls.Life.{Reaches, starts, connects, Reaches-owns}
use pushserver.Tls.Delivery.{accepts, Outcome, send-on_try_send_msg}
use pushserver.Apns.Client.{on_try_send_msg}
use pushserver.Tests.Data.{client}

abbrev fresh : Socket
fresh = record {
  context = none;
  ssl = none;
  connected = false;
  other_flags = 5;
  non_blocking = false;
  live_contexts = [];
  live_ssl = [];
  written = [];
}

abbrev welcome : Answers
welcome = record {
  new_context = some 11;
  ca_loaded = true;
  certificate_used = true;
  key_used = true;
  key_matches = true;
  host_found = true;
  tcp_failed = false;
  tcp_connected = true;
  new_ssl = some 12;
  handshake_done = true;
}

abbrev open_socket : Socket
open_socket = record {
  context = some 11;
  ssl = some 12;
  connected = true;
  other_flags = 0;
  non_blocking = true;
  live_contexts = 11 ∷ [];
  live_ssl = 12 ∷ [];
  written = [];
}

connected_fresh : connect welcome fresh ≡ ok (open_socket, no_err)
unfolding connect
connected_fresh = refl

-- There is no memory for the TLS object: the connection fails, but the flag stays.
abbrev half_open : Socket
half_open = record fresh { context = some 11; connected = true; live_contexts = 11 ∷ [] }

half_connected :
    connect (record welcome { new_ssl = none }) fresh ≡ ok (half_open, not_enough_space)
unfolding connect
half_connected = refl

half_open-Reaches : Reaches half_open
half_open-Reaches =
    connects (record welcome { new_ssl = none }) fresh (starts refl refl refl refl refl)
      half_connected

Reaches-owns_example :
    IsHeld half_open
    × (reset half_open ≡ ok (cleared half_open))
    × ((answers : Answers) → Returns (λ p. IsHeld p.0) (connect answers half_open))
    × ((e : SslError) (bytes : Bytes) → send e bytes half_open ≡ overrun)
    × ((e : SslError) (arrived : Bytes) (room : ℕ)
        → 7 ≤ room
        → read e arrived room half_open ≡ overrun)
Reaches-owns_example = Reaches-owns half_open half_open-Reaches

send-on_try_send_msg_example :
    (s' : Socket) × (r : OsError) × (send want_write (codes "old") open_socket ≡ ok (s', r))
    × Outcome want_write (codes "old") [] open_socket s' (on_try_send_msg (accepts r) client).0
send-on_try_send_msg_example =
    send-on_try_send_msg want_write (codes "old") [] open_socket client
      (record { contexts = refl; ssls = refl; usable = tt }) refl refl

abbrev android : AndroidSocket
android = record { tls = open_socket; up = true; waiting = []; written = []; wakes = [] }

abbrev blocked : AndroidSocket
blocked = record android { waiting = codes "one" ∷ []; wakes = requests_write ∷ [] }

abbrev overtaken : AndroidSocket
overtaken = record blocked { written = codes "two" ∷ [] }

blocked-Serves : Serves (codes "one" ∷ []) blocked
unfolding android_send
blocked-Serves = Android.sends want_write (codes "one") [] android (Android.starts refl refl) refl

-- The message that waits is overtaken by the next.
overtaken-Serves : Serves (codes "two" ∷ codes "one" ∷ []) overtaken
unfolding android_send
overtaken-Serves =
    Android.sends error_none (codes "two") (codes "one" ∷ []) blocked blocked-Serves refl

Serves-perm_example : Perm (codes "two" ∷ codes "one" ∷ []) (codes "two" ∷ codes "one" ∷ [])
Serves-perm_example = Serves-perm (codes "two" ∷ codes "one" ∷ []) overtaken overtaken-Serves
