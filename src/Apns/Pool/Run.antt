-- ===== src/Apns/Pool/Run.antt =====
-- ApsApnsClientPool.cpp: the pool's parameters and its `Run`, which connects the clients that wait
-- in its queue. Listening on a connected socket is left out.
pub mod Waiting
pub mod Params
use pushserver.Prelude.{
  ℕ, List, [], ◌∷◌, Bool, true, false, Option, none, some, Bytes, ◌==◌, if◌then◌else◌, Result, ok,
  thrown, overrun, stuck, ◌>>=◌,
}
use pushserver.Records.Results.{Wrapper, process_query_result}
use pushserver.Config.{Prefs, TlsConfig, apns_initialize_param}
use pushserver.Apns.Client.{
  Client, Status, offline, connecting, online, emit, notifies_send, online_, ssl_on_timeout,
  on_timeout,
}

-- The library's OSQueue, as far as the pool relies on it: the clients in it by their numbers.
pub record OsQueue : Type 1 where
  pub Queue : Type 0
  pub get_length : Queue → ℕ
  pub holds : Queue → ℕ → Bool
  pub en_queue : ℕ → Queue → Queue
  pub remove : ℕ → Queue → Queue

-- The parameters of a TLS socket.
pub record SocketParams : Type 0 where
  pub addr : Bytes
  pub port : ℕ
  pub password : Bytes
  pub path : Bytes
  pub cert : Bytes
  pub key : Bytes

-- The numbers of the clients: `m_advanceClient`, `m_primeryClient` and `m_feedbackClient`.
abbrev pub advance_client : ℕ
advance_client = 0

abbrev pub primery_client : ℕ
primery_client = 1

abbrev pub feedback_client : ℕ
feedback_client = 2

module _ (Q : OsQueue) where
  -- `sockets` has the parameters of each client's socket, `none` for a socket that was given none.
  pub record Network : Type 0 where
    pub clients : ℕ → Client
    pub sockets : ℕ → Option SocketParams
    pub queue : Q.Queue
    pub config : TlsConfig
    pub wrapper : Wrapper

  abbrev pub set_client : ℕ → Client → Network → Network
  set_client i c n = record n { clients = λ j. if i == j then c else n.clients j }

  abbrev pub set_socket : ℕ → Option SocketParams → Network → Network
  set_socket i p n = record n { sockets = λ j. if i == j then p else n.sockets j }

  abbrev pub server_params : TlsConfig → SocketParams
  server_params c = record {
    addr = c.addr;
    port = c.port;
    password = c.password;
    path = c.path;
    cert = c.cert;
    key = c.key;
  }

  abbrev pub feedback_params : TlsConfig → SocketParams
  feedback_params c = record {
    addr = c.feedback_addr;
    port = c.feedback_port;
    password = c.password;
    path = c.path;
    cert = c.cert;
    key = c.key;
  }

  -- The primary client is not given its parameters again.
  unfoldable pub re_initialize_param : Network → Network
  re_initialize_param n =
      set_socket advance_client (some (server_params n.config))
        (set_socket feedback_client (some (feedback_params n.config)) n)

  unfoldable pub initialize_param : Prefs → Network → Network
  initialize_param P n =
      let c = apns_initialize_param P n.config in
      let given = set_socket feedback_client (some (feedback_params c)) (
        set_socket primery_client (some (server_params c))
          (set_socket advance_client (some (server_params c)) (record n { config = c }))) in
      record given { queue = Q.en_queue primery_client (Q.en_queue advance_client n.queue) }

  -- The test of `GetConnectStatus()`; the library's kOffline is 0.
  abbrev pub is_offline : Status → Bool
  is_offline offline = true
  is_offline connecting = false
  is_offline online = false

  -- A client that is connected is online, and is told to send what waits.
  abbrev pub come_online : ℕ → Network → Network
  come_online i n =
      set_client i (emit notifies_send (online_ (n.clients i)))
        (record n { queue = Q.remove i n.queue })

  -- One client of the queue; `connects` is whether its socket connects.
  unfoldable pub connect_client : ℕ → Bool → Network → Network
  connect_client i connects n =
      if is_offline (n.clients i).status
      then (if connects then come_online i n else n)
      else record n { queue = Q.remove i n.queue }

  -- The loop over what the queue's iterator yields, `none` for NULL.
  unfoldable pub connect_event : List (Option ℕ × Bool) → Network → Network
  unfolding connect_client
  connect_event [] n = n
  connect_event ((none, connects) ∷ more) n =
      let rest = connect_event more n in if Q.get_length n.queue == 0 then n else rest
  connect_event ((some i, connects) ∷ more) n = connect_event more (connect_client i connects n)

  -- `SslTcpClient::OnTimeout` of a client: its new socket has no parameters.
  unfoldable pub client_timeout : ℕ → Network → Network
  client_timeout i n = set_socket i none (set_client i (ssl_on_timeout (n.clients i)) n)

  -- `ApsApnsAdvanceClient::OnTimeout`.
  unfoldable pub advance_timeout : Network → Network
  unfolding client_timeout re_initialize_param
  advance_timeout n =
      let n' = re_initialize_param (client_timeout advance_client n) in
      record n' { queue = Q.en_queue advance_client n'.queue }

  -- `SetConnectStatus(true)`: which of the library's states has the number 1.
  unfoldable pub timeout_event : Status → Bool → Network → Network
  unfolding client_timeout re_initialize_param
  timeout_event status_one connects n =
      let n' = re_initialize_param (client_timeout feedback_client n) in
      if connects
      then set_client feedback_client (record (n'.clients feedback_client) { status = status_one })
          n'
      else n'

  -- The event mask of `Run`, what the queue's iterator yields, the library's state of the number 1,
  -- and whether the feedback client connects.
  pub record PoolEvents : Type 0 where
    pub lcs : Bool
    pub connect : Bool
    pub timeout : Bool
    pub visited : List (Option ℕ × Bool)
    pub status_one : Status
    pub feedback_connects : Bool

  -- One event is served, and the mask has been cleared. The fuel is for the results of queries.
  unfoldable pub pool_run : ℕ → PoolEvents → Network → Result Network
  unfolding connect_event timeout_event
  pool_run fuel e n =
      if e.lcs
      then (process_query_result fuel n.wrapper >>= λ w. ok (record n { wrapper = w }))
      else (if e.connect
          then ok (connect_event e.visited n)
          else (if e.timeout then ok (timeout_event e.status_one e.feedback_connects n) else ok n))
