-- ===== src/App/Session/Clients.antt =====
-- What the pushes of a provider's session do to the two clients: `PushNotification` of
-- ApsApnsClientPool.cpp and of PushC2DMClientSocket.cpp, as `OnPublish` of ApsAppServerSession.cpp
-- calls them.
pub mod Device
pub mod Delivered
use pushserver.Prelude.{
  List, [], ◌∷◌, Bool, true, false, Bytes, Result, ok, thrown, overrun, stuck, ◌>>=◌,
}
use pushserver.Json.{Json}
use pushserver.Apns.Message.{Message}
use pushserver.Apns.Pool as Apns
use pushserver.Provider.C2dm as C2dm
use pushserver.App.Session.{Effect, push_ios, push_android}

-- `outcomes` is what the first `Send` of each message to the TLS listener says, true for a failure;
-- none fails after the last.
pub record Clients : Type 0 where
  pub pool : Apns.Pool
  pub c2dm : C2dm.Client
  pub outcomes : List Bool

abbrev pub outcome : List Bool → Bool
outcome [] = false
outcome (failed ∷ outcomes) = failed

abbrev pub later : List Bool → List Bool
later [] = []
later (failed ∷ outcomes) = outcomes

-- `new_message` and `memory` are what was in memory.
module _ {J : Json} (new_message : Message) (memory : Bytes) where
  unfoldable pub perform_push : Effect J → Clients → Result Clients
  perform_push (push_ios token text) c = do
    pool ← Apns.push_notification new_message memory token text c.pool
    ok (record c { pool = pool })
  perform_push (push_android token text) c = do
    client ← C2dm.push_notification (outcome c.outcomes) token text c.c2dm
    ok (record c { c2dm = client; outcomes = later c.outcomes })
  perform_push _ c = ok c

  -- The effects of a log, whose newest stands first, in their order.
  unfoldable pub perform : List (Effect J) → Clients → Result Clients
  unfolding perform_push
  perform [] c = ok c
  perform (e ∷ log) c = perform log c >>= perform_push e
