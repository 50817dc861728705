-- ===== src/Apns/Pool/Run/Params.antt =====
-- Which server the clients' sockets are told: ApsApnsClientPool.cpp.
use pushserver.Prelude.{
  ℕ, ◌≡◌, refl, List, [], ◌∷◌, Bool, true, false, Option, none, some, ◌==◌, Bool-cases, inl, inr,
  ◌⊎◌, arith, ok, subst, Ends, Ends-if, Ends-map,
}
use pushserver.Records.Results.{process_query_result}
use pushserver.Config.{Prefs}
use pushserver.Apns.Client.{Status}
use pushserver.Apns.Pool.Run.{
  OsQueue, Network, SocketParams, server_params, feedback_params, advance_client, primery_client,
  feedback_client, initialize_param, client_timeout, advance_timeout, connect_client, connect_event,
  timeout_event, PoolEvents, pool_run,
}

module _ (Q : OsQueue) where
  -- The pool once its parameters have been read: its own events, and the timeouts of its clients.
  pub data Lives (P : Prefs) : Network Q → Type 0 where
    initialized : (n : Network Q) → Lives P (initialize_param Q P n)
    runs :
        (fuel : ℕ) (e : PoolEvents Q) (n : Network Q) {n' : Network Q}
        → Lives P n
        → pool_run Q fuel e n ≡ ok n'
        → Lives P n'
    advance_times_out : (n : Network Q) → Lives P n → Lives P (advance_timeout Q n)
    primery_times_out : (n : Network Q) → Lives P n → Lives P (client_timeout Q primery_client n)
    feedback_times_out : (n : Network Q) → Lives P n → Lives P (client_timeout Q feedback_client n)

  -- The parameters of the service for notifications are those of the advance client's socket.
  abbrev pub HasServer : Network Q → Type 0
  HasServer n = n.sockets advance_client ≡ some (server_params Q n.config)

  abbrev HasFeedback : Network Q → Type 0
  HasFeedback n = n.sockets feedback_client ≡ some (feedback_params Q n.config)

  -- The parameters of a socket are those, or none.
  abbrev IsOrNone : Option SocketParams → Option SocketParams → Type 0
  IsOrNone p o = (o ≡ p) ⊎ (o ≡ none)

  -- What the sockets of the three clients are told.
  abbrev pub HasServers : Network Q → Type 0
  HasServers n =
      HasServer n
      × IsOrNone (some (feedback_params Q n.config)) (n.sockets feedback_client)
      × IsOrNone (some (server_params Q n.config)) (n.sockets primery_client)

  connect_client-HasServers :
      (j : ℕ) (b : Bool) (n : Network Q) → HasServers n → HasServers (connect_client Q j b n)
  unfolding connect_client
  connect_client-HasServers j b n h = ground arith

  connect_event-HasServers :
      (visited : List (Option ℕ × Bool)) (n : Network Q)
      → HasServers n
      → HasServers (connect_event Q visited n)
  unfolding connect_event
  connect_event-HasServers [] n h = h
  connect_event-HasServers ((none, b) ∷ visited) n h =
      elim (Bool-cases (Q.get_length n.queue == 0)) [
        | inl e ↦ rw e h
        | inr e ↦ rw e (connect_event-HasServers visited n h)
      ]
  connect_event-HasServers ((some j, b) ∷ visited) n h =
      connect_event-HasServers visited (connect_client Q j b n) (connect_client-HasServers j b n h)

  timeout_event-HasServers :
      (s : Status) (b : Bool) (n : Network Q) → HasServers n → HasServers (timeout_event Q s b n)
  unfolding timeout_event
  timeout_event-HasServers s true n (server, feedback, primery) = (refl, inl refl, primery)
  timeout_event-HasServers s false n (server, feedback, primery) = (refl, inl refl, primery)

  pool_run-HasServers :
      (fuel : ℕ) (e : PoolEvents Q) (n : Network Q)
      → HasServers n
      → Ends HasServers (pool_run Q fuel e n)
  unfolding pool_run
  pool_run-HasServers fuel e n h =
      Ends-if HasServers e.lcs _ _
        (λ is.
          Ends-map HasServers (process_query_result fuel n.wrapper) (λ w. record n { wrapper = w })
            (λ w. h))
        (λ is.
          Ends-if HasServers e.connect _ _ (λ is. connect_event-HasServers e.visited n h)
            (λ is.
              Ends-if HasServers e.timeout _ _
                (λ is. timeout_event-HasServers e.status_one e.feedback_connects n h) (λ is. h)))

  Lives-kept : (P : Prefs) (n : Network Q) → Lives P n → HasServers n
  unfolding initialize_param advance_timeout client_timeout
  Lives-kept P n (initialized before) = (refl, inl refl, inl refl)
  Lives-kept P n (runs fuel e before h ran) =
      subst (Ends HasServers) ran (pool_run-HasServers fuel e before (Lives-kept P before h))
  Lives-kept P n (advance_times_out before h) = (refl, inl refl, (Lives-kept P before h).2)
  Lives-kept P n (primery_times_out before h) =
      let (server, feedback, primery) = Lives-kept P before h in (server, feedback, inr refl)
  Lives-kept P n (feedback_times_out before h) =
      let (server, feedback, primery) = Lives-kept P before h in (server, inr refl, primery)

  -- What giving the parameters again does: the advance client and the feedback client have theirs,
  -- and the primary client has what it had.
  abbrev pub GivesAgain : Network Q → Network Q → Type 0
  GivesAgain n n' =
      HasServer n' × HasFeedback n' × (n'.sockets primery_client ≡ n.sockets primery_client)

  timeout_event-GivesAgain :
      (s : Status) (b : Bool) (n : Network Q) → GivesAgain n (timeout_event Q s b n)
  unfolding timeout_event
  timeout_event-GivesAgain s true n = (refl, refl, refl)
  timeout_event-GivesAgain s false n = (refl, refl, refl)

  advance_timeout-GivesAgain : (n : Network Q) → GivesAgain n (advance_timeout Q n)
  unfolding advance_timeout
  advance_timeout-GivesAgain n = (refl, refl, refl)

  -- Whatever events, and whatever timeouts of the three clients, follow the start: the socket of
  -- the advance client has the parameters of the server for notifications, as they were read, that
  -- of the feedback client those of the feedback server or none, and that of the primary client
  -- those of the server for notifications or none. A timeout of the advance client, and a timeout
  -- event of the pool, give the advance client and the feedback client theirs again, and leave the
  -- primary client's as they are.
  pub Lives-HasServers :
      (P : Prefs) (n : Network Q)
      → Lives P n
      → HasServers n
        × GivesAgain n (advance_timeout Q n)
        × ((s : Status) (b : Bool) → GivesAgain n (timeout_event Q s b n))
  Lives-HasServers P n h =
      (Lives-kept P n h, advance_timeout-GivesAgain n, λ s b. timeout_event-GivesAgain s b n)
