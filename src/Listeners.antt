-- ===== src/Listeners.antt =====
-- The three listeners: ApsAppTcpListenerSocket.cpp, PushListenerSslSocket.cpp and
-- MqttListenerSocket.cpp, and their creation in AvconPushServer.cpp. The class TCPListenerSocket is
-- not part of the repository.
use pushserver.Prelude.{
  ℕ, ◌*◌, List, [], ◌∷◌, Bool, true, false, not, Option, none, some, Bytes, if◌then◌else◌,
}
use pushserver.Config.{
  Prefs, ListenerConfig, app_initialize_param, mqtt_initialize_param, push_initialize_param,
}

-- The calls of OpenSSL behind the TLS context, by the text of the path, and whether the certificate
-- and the key match.
pub record ContextCalls : Type 0 where
  pub loads_ca : Bytes → Bool
  pub uses_certificate : Bytes → Bool
  pub uses_key : Bytes → Bool
  pub matches : Bytes → Bytes → Bool

-- A TLS context: what it holds, and whether the check at the end was passed.
pub record Context : Type 0 where
  pub ca : Option Bytes
  pub certificate : Option Bytes
  pub key : Option Bytes
  pub checked : Bool

abbrev pub new_context : Context
new_context = record { ca = none; certificate = none; key = none; checked = false }

-- The constructor of the TLS listener, which returns at the first call that fails.
unfoldable pub load_context : ContextCalls → ListenerConfig → Context
load_context o c =
    if not (o.loads_ca c.path)
    then new_context
    else (let with_ca = record new_context { ca = some c.path } in
        if not (o.uses_certificate c.cert)
        then with_ca
        else (let with_cert = record with_ca { certificate = some c.cert } in
            if not (o.uses_key c.key)
            then with_cert
            else record with_cert { key = some c.key; checked = o.matches c.cert c.key }))

pub data Kind : Type 0 where
  app_listener : Kind
  push_listener : Context → Kind
  mqtt_listener : Kind

pub record Listener : Type 0 where
  pub kind : Kind
  pub config : ListenerConfig
  pub requests_read : Bool

-- Behind `Initialize` of a listener, which tries to listen at its address.
abbrev pub add_listener : Bool → Listener → List Listener → List Listener
add_listener true l more = l ∷ more
add_listener false l more = more

-- `initialize` is `TCPListenerSocket::Initialize` at an address and a port, and `old` what the
-- members of a new listener hold.
module _ (P : Prefs) (o : ContextCalls) (initialize : Bytes → ℕ → Bool) (old : ListenerConfig) where
  abbrev pub initialized : Kind → ListenerConfig → List Listener → List Listener
  initialized kind c more =
      add_listener (initialize c.addr c.port)
        (record { kind = kind; config = c; requests_read = false }) more

  unfoldable pub create_listeners : List Listener
  unfolding load_context app_initialize_param mqtt_initialize_param push_initialize_param
  create_listeners =
      let push = push_initialize_param P old in
      initialized app_listener (app_initialize_param P old) (
        initialized (push_listener (load_context o push)) push
          (initialized mqtt_listener (mqtt_initialize_param P old) []))

-- `StartTasks`: each listener asks for read events.
unfoldable pub start_tasks : List Listener → List Listener
start_tasks [] = []
start_tasks (l ∷ more) = record l { requests_read = true } ∷ start_tasks more

-- An accepted connection, with the options of its socket, of which the buffer is counted in bytes.
-- `requests_read` is `RequestEvent(EV_RE)`.
pub record Accepted : Type 0 where
  pub descriptor : ℕ
  pub context : Option Context
  pub non_blocking : Bool
  pub no_delay : Bool
  pub keep_alive : Bool
  pub buf_size : ℕ
  pub requests_read : Bool

abbrev pub accepted : ℕ → Option Context → ℕ → Accepted
accepted descriptor context buf_size = record {
  descriptor = descriptor;
  context = context;
  non_blocking = true;
  no_delay = true;
  keep_alive = true;
  buf_size = buf_size;
  requests_read = true;
}

-- `GetSessionTask`. `allocates` is whether `new` returns a session.
unfoldable pub get_session_task : Kind → Bool → ℕ → Option Accepted
get_session_task kind false descriptor = none
get_session_task app_listener true descriptor = some (accepted descriptor none (1000 * 1024))
get_session_task (push_listener context) true descriptor =
    some (accepted descriptor (some context) (96 * 1024))
get_session_task mqtt_listener true descriptor = some (accepted descriptor none (96 * 1024))
