-- ===== src/Tests/App.antt =====
-- Tests of the provider's sessions: ApsAppServerSession.cpp, ApsRedisLocation.cpp.
use pushserver.Prelude.{
  some, true, false, ◌≡◌, refl, List, [], ◌∷◌, Bytes, codes, arith, Ends, ok, overrun,
}
use pushserver.Redis.{Redis, set_valid_device_token, is_valid_device_token}
use pushserver.Redis.Valid.{set_valid_device_token-is_valid_device_token}
use pushserver.App.Session.{Session, cs_disconnecting, publish_all, on_publish, dispatch, serve}
use pushserver.App.Session.States.{Handled, answers, command_of, pushes, dispatch-Handled}
use pushserver.App.Session.Serve.{serve-closed}
use pushserver.App.Session.Life.{new_app_srv_session, IsAlive, serve-new_app_srv_session}
use pushserver.App.Session.Publish.{targets, has_token, publish_all-targets, on_publish-overrun}
use pushserver.Json.{Json}
use pushserver.App.Request.{Request, has_member, parse_notification, parse_request_message}
use pushserver.App.Request.Alert.{parse_notification-default_alert}
use pushserver.App.Session.Closing.{closed_starts, Missed, serve-connect_time}
use pushserver.Tests.Data.{toy, redis, request, open_session, closed_session, token}

dispatch-Handled_example :
    Ends
      (Handled (answers (command_of (codes "publish"))) open_session)
      (dispatch toy redis request open_session)
dispatch-Handled_example = dispatch-Handled redis request open_session

serve-closed_example :
    Ends
      (λ s'. (s'.client_state ≡ cs_disconnecting) × (pushes s'.log ≡ []))
      (serve toy redis ((codes "noon", request, codes "publish") ∷ []) closed_session)
unfolding pushes
serve-closed_example =
    serve-closed redis ((codes "noon", request, codes "publish") ∷ []) closed_session refl

abbrev devices : List (Bytes × Bytes)
devices = ([], codes "ios") ∷ (codes "abc", codes "ios") ∷ (codes "abd", codes "android") ∷ []

publish_all-targets_example :
    (s' : Session toy) × (publish_all toy redis request devices open_session
      ≡ ok (s', has_token devices))
    × (pushes s'.log ≡ targets redis devices (pushes open_session.log))
publish_all-targets_example =
    publish_all-targets redis request devices open_session
      (omega arith, (omega arith, (omega arith, tt)))

on_publish-overrun_example : on_publish toy redis request open_session ≡ overrun
on_publish-overrun_example =
    on_publish-overrun redis request open_session 100 (codes "evice") refl refl refl (omega arith)
      refl

-- A JSON text whose only string is "connect".
abbrev entering : Request toy
entering = record request {
  root = codes "connect";
  command = codes "connect";
  app_id = codes "connect";
  keepalive = 60;
  clean_flag = true;
}

parsed : parse_request_message toy (codes "connect") request ≡ ok (entering, true)
unfolding parse_request_message
parsed = refl

serve-connect_time_example : Ends (Missed (codes "noon")) (
    serve toy redis
      ((codes "noon", request, codes "connect") ∷ (codes "evening", request, codes "disconn") ∷ [])
      (new_app_srv_session open_session))
unfolding closed_starts
serve-connect_time_example =
    serve-connect_time redis request entering (codes "connect") (codes "noon")
      ((codes "evening", request, codes "disconn") ∷ []) (new_app_srv_session open_session) refl
      refl parsed refl ((λ e. cc), tt)

-- Every value is a text with an alert.
abbrev alerting : Json
alerting = record {
  Value = Bytes;
  null = [];
  of_string = λ s. s;
  of_bool = λ b. [];
  of_uint = λ n. n ∷ [];
  of_int = λ n. n ∷ [];
  get = λ v name. some v;
  touch = λ v name. v;
  set = λ v name x. some x;
  members = λ v. some (codes "alert" ∷ codes "badge" ∷ []);
  as_string = λ v. some v;
  as_c_string = λ v. some v;
  as_bool = λ v. some true;
  as_int = λ v. some 60;
  parse = λ s. some s;
  write = λ v. v;
}

abbrev publishing : Request alerting
publishing = record {
  root = codes "wake up";
  command = codes "publish";
  app_id = [];
  clean_flag = true;
  keepalive = 0;
  mid = 1;
  qos = 0;
  remain_flag = true;
  time_on_live = 0;
  user_id = codes "user";
  device_id = [];
  android = [];
  ios = [];
}

has_alert : has_member alerting (codes "alert") (codes "alert" ∷ codes "badge" ∷ []) ≡ true
unfolding has_member
has_alert = refl

parse_notification-default_alert_example :
    parse_notification alerting publishing
    ≡ ok (record publishing {
      root = codes "wake up";
      android = codes "wake up";
      ios = codes "wake up";
    })
parse_notification-default_alert_example =
    parse_notification-default_alert alerting (codes "wake up") (codes "wake up") refl publishing
      (codes "alert" ∷ codes "badge" ∷ []) (codes "wake up") (codes "wake up") refl refl
      ((refl, refl), ((refl, refl), tt)) has_alert refl refl

-- A database that has taken the token for an invalid one.
abbrev marked : Redis
marked = record redis { is_member = λ name value. true }

set_valid_device_token-is_valid_device_token_example :
    (set_valid_device_token redis true token (codes "ios")
      ≡ ok (true, (codes "Account:ios:invalid", token) ∷ []))
    × (is_valid_device_token marked token (codes "ios") ≡ ok false)
set_valid_device_token-is_valid_device_token_example =
    set_valid_device_token-is_valid_device_token redis marked token (codes "ios") (omega arith) refl
      refl (refl, tt)

serve-new_app_srv_session_example : Ends IsAlive (
    serve toy redis
      ((codes "noon", request, codes "publish") ∷ [])
      (new_app_srv_session open_session))
serve-new_app_srv_session_example =
    serve-new_app_srv_session redis ((codes "noon", request, codes "publish") ∷ []) open_session
