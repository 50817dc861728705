-- ===== src/Provider/Life.antt =====
-- The life of the TLS sessions: constructor and destructor of SslSvrSession.cpp, the base class of
-- TCPSslSessionInterface.h and TCPSslSessionInterface.cpp, and the task thread that deletes a session
-- whose `Run` returns -1. The Windows variant is left out.
pub mod Owned
pub mod Steps
pub mod Released
use pushserver.Prelude.{
  ℕ, List, [], ◌∷◌, Bool, true, false, Option, none, some, ◌==◌, if◌then◌else◌, Result, ok, overrun,
  stuck, thrown, ◌>>=◌,
}
use pushserver.Json.{Json}
use pushserver.Mqtt.Run.{Events, Returns, deleted, kept}
use pushserver.Tls.{free_pointer}
use pushserver.Provider.Session.{World}
use pushserver.Provider.Run.{State, reading_request, Turn, Task, run}

-- The library's `atomic_add` and `atomic_sub` on an `unsigned int`: what it then holds, and what the
-- call returns.
pub record Atomic : Type 0 where
  pub add : ℕ → ℕ → ℕ × ℕ
  pub sub : ℕ → ℕ → ℕ × ℕ

-- `killed` is the kill event, and the other members those of the object.
pub record SslSession : Type 0 where
  pub ssl : Option ℕ
  pub session_id : ℕ
  pub holders : ℕ
  pub killed : Bool
  pub state : State
  pub messages : List (List ℕ)

-- The objects by their addresses, OpenSSL's live objects, `sSessionIDCounter`, and the devices.
pub record Host : Type 0 where
  pub sessions : List (ℕ × SslSession)
  pub live_ssl : List ℕ
  pub id_counter : ℕ
  pub world : World

unfoldable pub find_session : ℕ → List (ℕ × SslSession) → Option SslSession
find_session a [] = none
find_session a ((b, s) ∷ ss) = let rest = find_session a ss in if a == b then some s else rest

unfoldable pub drop_session : ℕ → List (ℕ × SslSession) → List (ℕ × SslSession)
drop_session a [] = []
drop_session a ((b, s) ∷ ss) = let rest = drop_session a ss in if a == b then ss else (b, s) ∷ rest

unfoldable pub set_session : ℕ → SslSession → List (ℕ × SslSession) → List (ℕ × SslSession)
set_session a s [] = []
set_session a s ((b, t) ∷ ss) =
    let rest = set_session a s ss in if a == b then (b, s) ∷ ss else (b, t) ∷ rest

-- The constructor of the base class, with the members of `SslSvrSession` as they begin.
abbrev pub new_base : ℕ → SslSession
new_base id = record {
  ssl = none;
  session_id = id;
  holders = 0;
  killed = false;
  state = reading_request;
  messages = [];
}

-- The kill event is signalled where `atomic_sub` returns 0.
abbrev pub let_go : SslSession → ℕ × ℕ → SslSession
let_go s (count, returned) =
    let s' = record s { holders = count } in
    if returned == 0 then record s' { killed = true } else s'

module _ (A : Atomic) where
  -- What `SSL_new` returns, `none` for NULL, is used by `SSL_set_fd`. The certificate of the peer is
  -- read and freed.
  unfoldable pub new_ssl_session : ℕ → Option ℕ → Host → Result Host
  new_ssl_session a none h = overrun
  new_ssl_session a (some ssl) h =
      let (counter, id) = A.add h.id_counter 1 in
      ok (record h {
        sessions = (a, record (new_base id) { ssl = some ssl }) ∷ h.sessions;
        live_ssl = ssl ∷ h.live_ssl;
        id_counter = counter;
      })

  unfoldable pub increment_object_holder_count : SslSession → SslSession
  increment_object_holder_count s = record s { holders = (A.add s.holders 1).0 }

  unfoldable pub decrement_object_holder_count : SslSession → SslSession
  decrement_object_holder_count s = let_go s (A.sub s.holders 1)

-- The destructor.
unfoldable pub delete_session : ℕ → SslSession → Host → Result Host
delete_session a s h = do
  live ← free_pointer s.ssl h.live_ssl
  ok (record h { sessions = drop_session a h.sessions; live_ssl = live })

-- What a call of `Run` leaves; its events have been taken.
unfoldable pub after_run : ℕ → SslSession → Host → Task × Returns → Result Host
unfolding delete_session set_session
after_run a s h (task, deleted) = delete_session a s (record h { world = task.world })
after_run a s h (task, kept) = ok (record h {
  sessions =
      set_session a (record s { killed = false; state = task.state; messages = task.messages })
        h.sessions;
  world = task.world;
})

-- A call of `Run` of the object at an address, for its kill event and others.
unfoldable pub run_session : Json → List Turn → Events → ℕ → SslSession → Host → Result Host
unfolding after_run
run_session J ts ev a s h =
    run J s.holders ts (record ev { kill = s.killed })
      (record { state = s.state; messages = s.messages; world = h.world; asks = [] })
    >>= after_run a s h
