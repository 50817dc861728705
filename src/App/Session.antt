-- ===== src/App/Session.antt =====
-- ApsAppServerSession.cpp: one provider's session. What a call does to the rest of the server (the
-- answers, the pushes, the records in the database, the timer) is the list `log`, newest first.
pub mod Handlers
pub mod States
pub mod Serve
pub mod Life
pub mod Closing
pub mod Audit
pub mod Clients
pub mod Publish
use pushserver.Prelude.{
  ℕ, ◌+◌, ◌*◌, ◌%◌, ◌^◌, List, [], ◌∷◌, Bool, true, false, Option, none, some, Bytes, codes, c_str,
  strcmp_eq, if◌then◌else◌, Result, ok, thrown, overrun, stuck, ◌>>=◌,
}
use pushserver.Prelude.Dict.{Dict}
use pushserver.Json.{Json}
use pushserver.Redis.{Redis, get_device_token, get_user_token, is_valid_device_token}
use pushserver.App.Request.{Request, parse_request_message}
use pushserver.App.Response.{Response, new_response, get_response_message}

-- `push_client_session_state`.
pub data ClientState : Type 0 where
  cs_new : ClientState
  cs_rec_connect : ClientState
  cs_send_connect_res : ClientState
  cs_connected : ClientState
  cs_disconnecting : ClientState

abbrev pub is_new : ClientState → Bool
is_new cs_new = true
is_new _ = false

abbrev pub is_connected : ClientState → Bool
is_connected cs_connected = true
is_connected _ = false

-- The HTTP status codes of the answers.
pub data Status : Type 0 where
  http_ok : Status
  http_bad_request : Status
  http_forbidden : Status

pub data Effect (J : Json) : Type 0 where
  refresh_timeout : Effect J
  set_timeout : ℕ → Effect J
  -- `GenHttpRespMsg`.
  respond : Status → Bytes → Effect J
  -- The calls of ApsMessageStatus, ApsConnectStatus and ApsIosMessage.
  add_message : Request J → Bytes → Effect J
  update_message : Bytes → Bytes → Bytes → Effect J
  add_connect_message : Request J → Effect J
  update_connect_status : Bytes → Bytes → Bytes → Effect J
  add_publish_message : Request J → Bytes → ℕ → Effect J
  -- `PushNotification` of the two clients.
  push_ios : Bytes → Bytes → Effect J
  push_android : Bytes → Bytes → Effect J

-- `message_id` is the counter of the client pool; `now` is the text of the present time.
pub record Session (J : Json) : Type 0 where
  pub client_state : ClientState
  pub app_id : Bytes
  pub clean_session : Bool
  pub keepalive : ℕ
  pub receive_time : Bytes
  pub connect_time : Bytes
  pub message_id : ℕ
  pub now : Bytes
  pub log : List (Effect J)

module _ (J : Json) where
  abbrev pub emit : Effect J → Session J → Session J
  emit e s = record s { log = e ∷ s.log }

  abbrev pub answer : Status → Response → Session J → Result (Session J)
  unfolding get_response_message
  answer status r s = do text ← get_response_message J r; ok (emit (respond status text) s)

  abbrev pub refusal : Request J → ℕ → Response
  refusal request code = record new_response { command = c_str request.command; error_code = code }

  abbrev pub update : Bytes → Session J → Session J
  update status s = emit (update_message s.receive_time s.app_id status) s

  unfoldable pub on_connect : Request J → Session J → Result (Session J)
  on_connect request s =
      if is_new s.client_state
      then (answer http_ok (record new_response { command = codes "connack"; success_flag = true })
            (emit (set_timeout (request.keepalive * 1000 * 2 % 2 ^ 32)) (record s {
              client_state = cs_rec_connect;
              app_id = request.app_id;
              clean_session = request.clean_flag;
              keepalive = request.keepalive;
            }))
          >>= λ s'.
              ok
                (record (emit (add_connect_message request)
                  (update (codes "ok") (record s' { client_state = cs_connected }))) {
                    connect_time = s.now;
                  }))
      else (answer http_forbidden (refusal request 10) s >>= λ s'. ok (update (codes "error") s'))

  unfoldable pub on_ping_req : Request J → Session J → Result (Session J)
  on_ping_req request s =
      if is_connected s.client_state
      then (answer http_ok (record new_response { command = codes "pingresp" }) s >>= λ s'.
          ok (update (codes "OK") s'))
      else (answer http_forbidden (refusal request 8) s >>= λ s'.
          ok (update (codes "Receive pingreq while state is not connected") s'))

  unfoldable pub on_undefined_cmd : Request J → Session J → Result (Session J)
  on_undefined_cmd request s =
      answer http_forbidden (refusal request 6) s >>= λ s'. ok (update (codes "error") s')

  -- The connection record is looked for by `receiveTime`.
  unfoldable pub on_disconn : Request J → Session J → Session J
  on_disconn request s =
      if is_connected s.client_state
      then update (codes "ok") (
          emit (update_connect_status s.receive_time s.app_id (codes "Receive Disconn message"))
            (record (emit (set_timeout 1) s) { client_state = cs_disconnecting }))
      else update (codes "error") s

  abbrev pub on_disconnect : Session J → Session J
  on_disconnect s =
      emit (update_connect_status s.receive_time s.app_id (codes "server disconnect")) s

  -- One device of the map: its token and its type.
  abbrev pub push : Request J → Bytes → Bytes → Session J → Session J
  push request token type s =
      if strcmp_eq type (codes "ios")
      then (let id = (s.message_id + 1) % 2 ^ 32 in
          emit (add_publish_message request (c_str token) (id % 2 ^ 16))
            (record (emit (push_ios (c_str token) (c_str (J.write request.ios))) s) {
              message_id = id;
            }))
      else emit (push_android (c_str token) (c_str (J.write request.android))) s

  unfoldable pub publish_to : Redis → Request J → Bytes → Bytes → Session J → Result (Session J)
  unfolding is_valid_device_token
  publish_to redis request token type s = do
    valid ← is_valid_device_token redis token type
    ok (if valid then push request token type s else s)

  -- The loop over the map; the flag is `response_flag`.
  unfoldable pub publish_all :
      Redis → Request J → Dict Bytes → Session J → Result (Session J × Bool)
  unfolding publish_to
  publish_all redis request [] s = ok (s, false)
  publish_all redis request (([], type) ∷ m) s = publish_all redis request m s
  publish_all redis request ((b ∷ bs, type) ∷ m) s = do
    s' ← publish_to redis request (b ∷ bs) type s
    (s'', flag) ← publish_all redis request m s'
    ok (s'', true)

  -- `id.begin()` of an empty map is no element.
  abbrev pub publish_first : Redis → Request J → Dict Bytes → Session J → Result (Session J × Bool)
  publish_first redis request [] s = overrun
  publish_first redis request (([], type) ∷ m) s = ok (s, false)
  publish_first redis request ((b ∷ bs, type) ∷ m) s =
      publish_to redis request (b ∷ bs) type s >>= λ s'. ok (s', true)

  unfoldable pub publish : Redis → Request J → Bytes → Session J → Result (Session J × Bool)
  unfolding publish_all get_user_token get_device_token
  publish redis request [] s = do
    found ← get_user_token redis request.user_id []
    publish_all redis request found.0 s
  publish redis request (b ∷ bs) s = do
    found ← get_device_token redis request.user_id (b ∷ bs) []
    publish_first redis request found.0 s

  unfoldable pub finish_publish : Request J → Session J × Bool → Result (Session J)
  finish_publish request (s, true) =
      answer http_ok
        (record new_response { command = codes "puback"; success_flag = true; mid = request.mid }) s
      >>= λ s'. ok (update (codes "ok") s')
  finish_publish request (s, false) =
      answer http_forbidden (refusal request 12) s >>= λ s'. ok (update (codes "devid is null") s')

  unfoldable pub on_publish : Redis → Request J → Session J → Result (Session J)
  unfolding publish finish_publish
  on_publish redis request s =
      if is_connected s.client_state
      then (publish redis request request.device_id s >>= finish_publish request)
      else (answer http_forbidden (refusal request 8) s >>= λ s'.
          ok (update (codes "Receive publish in wrong state") s'))

  unfoldable pub dispatch : Redis → Request J → Session J → Result (Session J)
  unfolding on_connect on_ping_req on_publish on_disconn on_undefined_cmd
  dispatch redis request s =
      if strcmp_eq request.command (codes "connect")
      then on_connect request s
      else (if strcmp_eq request.command (codes "pingreq")
          then on_ping_req request s
          else (if strcmp_eq request.command (codes "publish")
              then on_publish redis request s
              else (if strcmp_eq request.command (codes "disconn")
                  then ok (on_disconn request s)
                  else on_undefined_cmd request s)))

  abbrev pub receive : Request J → Session J → Session J
  receive request s = record (emit (add_message request s.app_id) s) { receive_time = s.now }

  -- The request, and whether it could be parsed.
  unfoldable pub handle_request : Redis → Request J × Bool → Session J → Result (Session J)
  unfolding dispatch
  handle_request redis (request, true) s = dispatch redis request (receive request s)
  handle_request redis (request, false) s = answer http_bad_request (refusal request 7) s

  -- `r` is the memory of the new request object.
  unfoldable pub on_http_request : Redis → Request J → Bytes → Session J → Result (Session J)
  unfolding parse_request_message handle_request
  on_http_request redis r content s = do
    found ← parse_request_message J (c_str content) r
    handle_request redis found (emit refresh_timeout s)

  -- Requests one after the other, each with the time of its arrival and the memory of its object.
  unfoldable pub serve : Redis → List (Bytes × Request J × Bytes) → Session J → Result (Session J)
  unfolding on_http_request
  serve redis [] s = ok s
  serve redis ((now, r, content) ∷ rs) s = do
    s' ← on_http_request redis r content (record s { now = now })
    serve redis rs s'
