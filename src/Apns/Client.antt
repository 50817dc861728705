-- ===== src/Apns/Client.antt =====
-- SslTcpClient.cpp, with the clients of ApsApnsPrimeryClient.cpp and ApsApnsAdvanceClient.cpp: a
-- client's messages, and the events of its connection. The class TcpClient is not part of the
-- repository; what is asked of it, and of the pool, is the list `log`, newest first.
pub mod Order
pub mod Responses
use pushserver.Prelude.{
  ℕ, ◌+◌, ◌*◌, ◌%◌, ◌^◌, List, [], ◌∷◌, ◌++◌, Bool, true, false, Option, none, some, Bytes, Result,
  ok, overrun, stuck, thrown, ◌>>=◌, length, take, replicate, get_elem?, sub32, ltb, leb, ◌==◌,
  if◌then◌else◌,
}
use pushserver.Apns.Message.{Message, get_request_message}

pub data Status : Type 0 where
  offline : Status
  connecting : Status
  online : Status

-- The two periods, in seconds, are constants of the library.
pub data Event : Type 0 where
  -- Bytes that `SendData` took over.
  sent : Bytes → Event
  notifies_send : Event
  refreshes : Event
  keep_alive : Event
  reconnect_after : Event
  no_timeout : Event
  new_socket : Event
  -- The pool: the client is put in its queue and it is signalled.
  asks_connection : Event
  -- `ReInitializeParam` of the pool.
  reinitializes : Event
  -- `FindPublishMessage` with this message id.
  finds : ℕ → Event

pub record Client : Type 0 where
  pub status : Status
  pub messages : List Bytes
  pub log : List Event

abbrev pub emit : Event → Client → Client
emit e c = record c { log = e ∷ c.log }

unfoldable pub online_ : Client → Client
online_ c = emit keep_alive (record c { status = online })

-- The messages stay in the list.
unfoldable pub offline_ : Client → Client
offline_ c = emit no_timeout (record c { status = offline })

unfoldable pub ssl_on_timeout : Client → Client
ssl_on_timeout c = emit new_socket (record (emit keep_alive c) { status = offline })

abbrev pub is_connecting : Status → Bool
is_connecting connecting = true
is_connecting _ = false

unfoldable pub on_net_connecting : Client → Client
on_net_connecting c =
    if is_connecting c.status then c else emit reconnect_after (record c { status = connecting })

unfoldable pub on_net_connectted : Client → Client
on_net_connectted c = emit keep_alive c

-- A copy of the first `n` bytes goes to the end of the list.
unfoldable pub on_send_message : Bytes → Client → Client
on_send_message bytes c = emit notifies_send (record c { messages = c.messages ++ (bytes ∷ []) })

-- The head of the list is sent; where others are left, sending is asked for again.
try_messages : Bool → List Bytes → Client → Client × Bool
try_messages accepted [] c = (c, true)
try_messages true (m ∷ []) c = (record (emit refreshes (emit (sent m) c)) { messages = [] }, true)
try_messages true (m ∷ k ∷ ms) c =
    (emit notifies_send (record (emit refreshes (emit (sent m) c)) { messages = k ∷ ms }), true)
try_messages false (m ∷ ms) c = (emit asks_connection c, false)

-- `accepted` is whether `SendData` returns no error. The result is whether there was none.
unfoldable pub on_try_send_msg : Bool → Client → Client × Bool
unfolding try_messages
on_try_send_msg accepted c = try_messages accepted c.messages c

-- The buffer has 2048 bytes, and is sent whole where the message wrote nothing.
unfoldable pub send_request : Option Bytes → Client → Result Client
unfolding on_send_message
send_request none c = ok (on_send_message (replicate 2048 0) c)
send_request (some bytes) c =
    if ltb 2048 (length bytes) then overrun else ok (on_send_message bytes c)

-- `OnPublish` of both clients.
unfoldable pub on_publish : Message → Client → Result Client
unfolding get_request_message send_request
on_publish m c = send_request (get_request_message m) c

-- `OnTimeout` of the advance client.
unfoldable pub on_timeout : Client → Client
unfolding ssl_on_timeout
on_timeout c = emit asks_connection (emit reinitializes (ssl_on_timeout c))

-- An error response of the service; `FindPublishMessage` takes the id as a `uint16_t`.
pub record Response : Type 0 where
  pub command : ℕ
  pub status : ℕ
  pub id : ℕ

unfoldable pub on_response : Response → Client → Client
on_response r c = emit (finds (r.id % 2 ^ 16)) c

abbrev pub response_of : ℕ → ℕ → ℕ → ℕ → ℕ → ℕ → Response
response_of command status a b c d = record {
  command = command;
  status = status;
  id = a * 2 ^ 24 + b * 2 ^ 16 + c * 2 ^ 8 + d;
}

-- `OnProcessRecvMsg` of the advance client: whether the bytes are a response, and `nLen` after it.
unfoldable pub on_process_recv_msg : Bytes → ℕ → Client → Result (Client × Bool × ℕ)
unfolding on_response
on_process_recv_msg (command ∷ status ∷ a ∷ b ∷ c ∷ d ∷ rest) n_len client =
    if command == 8
    then ok (on_response (response_of command status a b c d) client, true, sub32 n_len 6)
    else ok (client, false, n_len)
on_process_recv_msg [] n_len client = overrun
on_process_recv_msg (command ∷ rest) n_len client =
    if command == 8 then overrun else ok (client, false, n_len)
