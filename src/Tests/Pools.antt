-- ===== src/Tests/Pools.antt =====
-- Tests of the pool of Apple clients: ApsApnsClientPool.cpp.
use pushserver.Prelude.{
  ℕ, List, [], ◌∷◌, Bool, true, false, ◌||◌, none, some, codes, ◌==◌, if◌then◌else◌,
}
use pushserver.Config.{TlsConfig}
use pushserver.Apns.Pool.Run.{
  OsQueue, Network, PoolEvents, initialize_param, advance_timeout, client_timeout, feedback_client,
  timeout_event,
}
use pushserver.Apns.Pool.Run.Params.{
  initialized, advance_times_out, feedback_times_out, HasServers, GivesAgain, Lives-HasServers,
}
use pushserver.Apns.Client.{Status, connecting}
use pushserver.Tests.Data.{client, prefs}

abbrev held : List ℕ → ℕ → Bool
held [] j = false
held (i ∷ q) j = (i == j) || held q j

abbrev size : List ℕ → ℕ
size [] = 0
size (i ∷ q) = 1

abbrev removed : ℕ → List ℕ → List ℕ
removed i [] = []
removed i (j ∷ q) = if i == j then removed i q else j ∷ removed i q

abbrev list_queue : OsQueue
list_queue = record {
  Queue = List ℕ;
  get_length = size;
  holds = held;
  en_queue = λ i q. i ∷ q;
  remove = removed;
}

abbrev config : TlsConfig
config = record {
  type = [];
  addr = codes "default";
  port = 2195;
  password = [];
  feedback_addr = [];
  feedback_port = 2196;
  path = [];
  cert = [];
  key = [];
}

abbrev network : Network list_queue
network = record {
  clients = λ i. client;
  sockets = λ i. none;
  queue = 0 ∷ 1 ∷ [];
  config = config;
  wrapper = record { results = []; heap = λ a. none; signals = 0 };
}

-- The first client fails to connect, then the second connects, and then the first.
abbrev connect_events : PoolEvents list_queue
connect_events = record {
  lcs = false;
  connect = true;
  timeout = false;
  visited = (some 0, false) ∷ (none, true) ∷ (some 1, true) ∷ (some 0, true) ∷ [];
  status_one = connecting;
  feedback_connects = false;
}

-- The feedback client's own timer has run out.
abbrev timed_out_pool : Network list_queue
timed_out_pool =
    client_timeout list_queue feedback_client
      (advance_timeout list_queue (initialize_param list_queue prefs network))

Lives-HasServers_example :
    HasServers list_queue timed_out_pool
    × GivesAgain list_queue timed_out_pool (advance_timeout list_queue timed_out_pool)
    × ((s : Status) (b : Bool)
        → GivesAgain list_queue timed_out_pool (timeout_event list_queue s b timed_out_pool))
Lives-HasServers_example = Lives-HasServers list_queue prefs timed_out_pool (
    feedback_times_out (advance_timeout list_queue (initialize_param list_queue prefs network))
      (advance_times_out (initialize_param list_queue prefs network) (initialized network)))
