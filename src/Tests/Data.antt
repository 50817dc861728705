-- ===== src/Tests/Data.antt =====
-- A small JSON library, a registry, sessions and requests for the tests.
use pushserver.Config.{Prefs}
use pushserver.Prelude.{[], ◌∷◌, true, false, none, some, Bytes, codes}
use pushserver.Json.{Json}
use pushserver.Redis.{Redis}
use pushserver.Mqtt.Packet.{init_new}
use pushserver.Mqtt.Session as DeviceSession
use pushserver.Provider.Session.{World}
use pushserver.Provider.Session.Frames.{Push}
use pushserver.App.Request.{Request}
use pushserver.App.Session as AppSession
use pushserver.Apns.Message.{Message}
use pushserver.Apns.Client as ApnsClient

-- Every value is a text, and every member of it is the text itself.
abbrev pub toy : Json
toy = record {
  Value = Bytes;
  null = [];
  of_string = λ s. s;
  of_bool = λ b. [];
  of_uint = λ n. n ∷ [];
  of_int = λ n. n ∷ [];
  get = λ v name. some v;
  touch = λ v name. v;
  set = λ v name x. some v;
  members = λ v. some [];
  as_string = λ v. some v;
  as_c_string = λ v. some v;
  as_bool = λ v. some true;
  as_int = λ v. some 60;
  parse = λ s. some s;
  write = λ v. v;
}

abbrev pub name : Bytes
name = codes "0123456789abcdef"

abbrev pub token : Bytes
token = codes "0123456789abcdef0123456789abcdef"

abbrev pub new_session : DeviceSession.Session
new_session = record {
  self = 7;
  status = init_new;
  protocol_name = [];
  protocol_version = 0;
  flag = 0;
  keep_alive = 0;
  client_id = [];
  msg_list = [];
  registry = (token, 3) ∷ [];
  outcomes = [];
  effects = [];
}

abbrev pub world : World
world = record { registry = (token, 7) ∷ []; sessions = λ a. some new_session }

abbrev pub push_message : Push
push_message = record { command = 0; token = token; payload = codes "hi" }

-- Two databases: one where the user has an iOS device, and one with no devices.
abbrev pub redis : Redis
redis = record {
  is_connected = false;
  connect = true;
  hash_field = λ k f. none;
  hash_values = λ k. some (codes "abc&ios" ∷ []);
  is_member = λ k v. false;
}

abbrev pub request : Request toy
request = record {
  root = codes "publish";
  command = codes "publish";
  app_id = codes "app";
  clean_flag = true;
  keepalive = 60;
  mid = 1;
  qos = 0;
  remain_flag = false;
  time_on_live = 0;
  user_id = codes "user";
  device_id = codes "device";
  android = codes "hello";
  ios = codes "hello";
}

abbrev pub open_session : AppSession.Session toy
open_session = record {
  client_state = AppSession.cs_connected;
  app_id = codes "app";
  clean_session = true;
  keepalive = 60;
  receive_time = [];
  connect_time = [];
  message_id = 0;
  now = [];
  log = [];
}

abbrev pub closed_session : AppSession.Session toy
closed_session = record open_session { client_state = AppSession.cs_disconnecting }

abbrev pub message : Message
message = record { command = 0; id = 5; expiry = 100; device_token = token; payload = codes "hi" }

abbrev pub client : ApnsClient.Client
client = record { status = ApnsClient.offline; messages = codes "old" ∷ []; log = [] }

-- A file where every preference is its name.
abbrev pub prefs : Prefs
prefs = record {
  Container = Bytes;
  apns_type = [];
  apns_development = [];
  apns_production = [];
  redis = [];
  token_redis = [];
  mongodb = [];
  c2dm_client = [];
  server = [];
  mqtt_server = [];
  c2dm_server = [];
  pref_ref = λ section name. some name;
  pref_value = λ name. some (name, []);
  to_short = λ value type old. 2197;
}
