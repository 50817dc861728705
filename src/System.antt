-- ===== src/System.antt =====
-- The sessions of devices and of providers over one registry: a device that connects gets an object
-- (MqttListenerSocket.cpp), which its thread runs (MqttServer.cpp) and deletes when `Run` returns -1,
-- and a push message looks the registry up (SslSvrSession.cpp).
pub mod Owners
pub mod Delivers
pub mod Invariant
pub mod Steps
pub mod Runs
pub mod Reuse
pub mod Publish
pub mod Connect
use pushserver.Prelude.{
  ℕ, List, [], ◌∷◌, Option, none, some, Bytes, Result, ok, ◌>>=◌, ◌≡◌, ◌⊎◌, ◌++◌, ◌==◌,
  if◌then◌else◌,
}
use pushserver.Json.{Json}
use pushserver.Mqtt.Packet.{init_new}
use pushserver.Mqtt.Session.{Session}
use pushserver.Mqtt.Run.{Turn, Events, Returns, deleted, kept, run}
use pushserver.Provider.Packet.{ProviderPacket}
use pushserver.Provider.Session.{World, store, packet_handle}

-- A new object at an address; `memory` is what the members hold that have no constructor.
abbrev pub new_mqtt_server : ℕ → Session → Session
new_mqtt_server a memory = record memory {
  self = a;
  status = init_new;
  protocol_name = [];
  client_id = [];
  msg_list = [];
  effects = [];
}

-- `new MqttServer()`, for a device that connects.
unfoldable pub accept_device : ℕ → Session → World → World
accept_device a memory w = store a (new_mqtt_server a memory) w

-- The object is deleted: there is none at the address.
abbrev pub forget : ℕ → World → World
forget a w = record w { sessions = λ b. if a == b then none else w.sessions b }

-- What a run leaves: the registry as the session has it, and the object, if it was not deleted.
unfoldable pub after_run : ℕ → World → Session × Returns → World
after_run a w (s, deleted) = forget a (record w { registry = s.registry })
after_run a w (s, kept) = store a s (record w { registry = s.registry })

-- A call of `Run` on the object at an address.
unfoldable pub run_device : Json → ℕ → List Turn → Events → ℕ → Session → World → Result World
unfolding after_run
run_device J holders ts ev a s w =
    run J holders ts ev (record s { registry = w.registry }) >>= λ done. ok (after_run a w done)

-- What can happen: a device connects and gets an object at an address that has none, be it one that
-- was used before, its task runs, or a push message is handled.
pub data Step (J : Json) (w w' : World) : Type 0 where
  accepts :
      (a : ℕ) (memory : Session) → w.sessions a ≡ none → w' ≡ accept_device a memory w → Step J w w'
  runs :
      (holders : ℕ) (ts : List Turn) (ev : Events) (a : ℕ) (s : Session)
      → w.sessions a ≡ some s
      → run_device J holders ts ev a s w ≡ ok w'
      → Step J w w'
  pushes : (p : ProviderPacket) → packet_handle J p w ≡ ok w' → Step J w w'

pub data Reaches (J : Json) (w : World) : World → Type 0 where
  here : Reaches J w w
  next : {u v : World} → Reaches J w u → Step J u v → Reaches J w v

-- The address at which a step deletes an object, if it does.
abbrev pub lost : ℕ → Option Session → List ℕ
lost a none = a ∷ []
lost a (some s) = []

abbrev pub deletes : {J : Json} {w w' : World} → Step J w w' → List ℕ
deletes (accepts a memory free e) = []
deletes {w'} (runs holders ts ev a s live e) = lost a (w'.sessions a)
deletes (pushes p e) = []

-- The addresses at which objects have been deleted, the newest first.
abbrev pub deleted_at : {J : Json} {w w' : World} → Reaches J w w' → List ℕ
deleted_at here = []
deleted_at (next r st) = deletes st ++ deleted_at r

abbrev pub IsIn : ℕ → List ℕ → Type 0
IsIn b [] = ⊥
IsIn b (a ∷ l) = (a ≡ b) ⊎ IsIn b l

-- The server at its start.
abbrev pub start : World
start = record { registry = []; sessions = λ a. none }
