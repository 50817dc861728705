-- ===== src/Tests/Sessions.antt =====
-- Tests of the life of the TLS sessions: SslSvrSession.cpp, TCPSslSessionInterface.cpp.
use pushserver.Prelude.{
  ℕ, suc, ◌+◌, ◌-◌, ◌%◌, ◌^◌, ◌≡◌, refl, ap, [], ◌∷◌, true, false, some, ok, arith,
}
use pushserver.Mqtt.Run.{Events, other, deleted}
use pushserver.Provider.Run.{Turn, reading_request, run}
use pushserver.Provider.Life.{
  Atomic, SslSession, Host, find_session, set_session, drop_session, new_ssl_session,
  increment_object_holder_count, run_session,
}
use pushserver.Provider.Life.Owned.{owned, IsDistinct, IsOwner}
use pushserver.Provider.Life.Steps.{
  task_of, changed, Reaches, starts, next, accepts, holds, Reaches-run_session,
}
use pushserver.Provider.Life.Released.{IsAtomic, released, run_session-released}
use pushserver.Tests.Data.{toy, world}

abbrev atomic : Atomic
atomic = record {
  add = λ x n. ((x + n) % 2 ^ 32, (x + n) % 2 ^ 32);
  sub = λ x n. ((x + 2 ^ 32 - n) % 2 ^ 32, (x + 2 ^ 32 - n) % 2 ^ 32);
}

atomic_laws : IsAtomic atomic
atomic_laws x small = ap (λ k. (k, k)) {x = (suc x + 2 ^ 32 - 1) % 2 ^ 32} (omega (arith, small))

-- A session that is held by some others, and no sessions.
abbrev session : ℕ → SslSession
session holders = record {
  ssl = some 8;
  session_id = 2;
  holders = holders;
  killed = false;
  state = reading_request;
  messages = [];
}

abbrev host : ℕ → Host
host holders = record {
  sessions = (3, session holders) ∷ [];
  live_ssl = 8 ∷ [];
  id_counter = 2;
  world = world;
}

abbrev empty_host : Host
empty_host = record { sessions = []; live_ssl = []; id_counter = 1; world = world }

idle : Reaches toy atomic (host 0)
unfolding new_ssl_session
idle = next (starts {h = empty_host} refl refl) (accepts 3 8 tt refl)

held_twice : Reaches toy atomic (host 2)
unfolding increment_object_holder_count find_session set_session
held_twice =
    next {h = host 1} (next {h = host 0} idle (holds 3 (session 0) refl refl))
      (holds 3 (session 1) refl refl)

session_found : (n : ℕ) → find_session 3 (host n).sessions ≡ some (session n)
unfolding find_session
session_found n = refl

abbrev turn : Turn
turn = record { live = false; read = other; buffer = []; n_len = 0 }

abbrev events : Events
events = record { timeout = false; kill = false; reads = true; writes = false; zmq = false }

abbrev late : Events
late = record { timeout = true; kill = false; reads = false; writes = false; zmq = false }

timed_out :
    run toy 0 [] late (task_of (host 0) (session 0)) ≡ ok (task_of (host 0) (session 0), deleted)
unfolding run
timed_out = refl

Reaches-run_session_example :
    ((host 0).live_ssl ≡ owned (host 0).sessions)
    × ((h' : Host) × (run_session toy [] late 3 (session 0) (host 0) ≡ ok h')
        × (h'.sessions ≡ drop_session 3 (host 0).sessions)
        × (h'.live_ssl ≡ owned h'.sessions))
    × IsDistinct (host 0).live_ssl
Reaches-run_session_example =
    Reaches-run_session toy atomic (host 0) [] late 3 (session 0) (task_of (host 0) (session 0))
      idle (session_found 0) timed_out

run_session-released_example :
    (run_session toy (turn ∷ []) events 3 (session 2) (host 2)
      ≡ ok (changed toy atomic 3 (session 2) (host 2)))
    × ((released toy atomic atomic_laws 1 (session 2)).killed ≡ false)
    × ((released toy atomic atomic_laws 2 (session 2)).killed ≡ true)
    × ((h' : Host) × (run_session toy
            (turn ∷ [])
            events
            3
            (released toy atomic atomic_laws 2 (session 2))
            (changed toy atomic 3 (released toy atomic atomic_laws 2 (session 2)) (host 2))
          ≡ ok h')
        × (h'.sessions ≡ drop_session 3 (host 2).sessions)
        × IsOwner h')
run_session-released_example =
    run_session-released toy atomic atomic_laws (host 2) turn [] events 3 1 (session 2) held_twice
      (session_found 2) refl (omega arith) refl refl refl
