-- ===== src/Config.antt =====
-- What the parts of the server read of the preference file at their start: `Initialize` of
-- ApsRedisLocation.cpp, ApsTokenRedisLocation.cpp and ApsMongodbLocation.cpp, and `InitializeParam`
-- of ApsApnsClientPool.cpp, SslAndroidTcpSocket.cpp and the three listeners.
use pushserver.Prelude.{
  ℕ, Bool, true, false, Option, none, some, Bytes, codes, c_str, strcmp_eq, if◌then◌else◌,
}

-- XMLPrefsParser and ZQDataConverter (not part of the repository).
pub record Prefs : Type 1 where
  pub Container : Type 0
  -- The sections of the file.
  pub apns_type : Container
  pub apns_development : Container
  pub apns_production : Container
  pub redis : Container
  pub token_redis : Container
  pub mongodb : Container
  pub c2dm_client : Container
  pub server : Container
  pub mqtt_server : Container
  pub c2dm_server : Container
  -- `GetPrefRefByName`, which is NULL for a missing one, and `GetPrefValueByRef` of the first value:
  -- its text and the text of its type.
  pub pref_ref : Container → Bytes → Option Container
  pub pref_value : Container → Option (Bytes × Bytes)
  -- `StringToValue` into two bytes, from the value, its type and what stands there before.
  pub to_short : Bytes → Bytes → ℕ → ℕ

-- The parameters of a database.
pub record Database : Type 0 where
  pub addr : Bytes
  pub usr_name : Bytes
  pub pwd : Bytes
  pub db_name : Bytes
  pub port : ℕ

-- Those of a TLS client, with the feedback server.
pub record TlsConfig : Type 0 where
  pub type : Bytes
  pub addr : Bytes
  pub port : ℕ
  pub password : Bytes
  pub feedback_addr : Bytes
  pub feedback_port : ℕ
  pub path : Bytes
  pub cert : Bytes
  pub key : Bytes

-- Those of a listener; only the one with TLS has files.
pub record ListenerConfig : Type 0 where
  pub addr : Bytes
  pub port : ℕ
  pub path : Bytes
  pub cert : Bytes
  pub key : Bytes

module _ (P : Prefs) where
  -- A preference, if it is in the section and has a value.
  abbrev pub value_of : Option P.Container → Option (Bytes × Bytes)
  value_of none = none
  value_of (some r) = P.pref_value r

  abbrev pub found : P.Container → Bytes → Option (Bytes × Bytes)
  found section name = value_of (P.pref_ref section name)

  -- `Set(thePrefValue, strlen(thePrefValue))`; a missing preference leaves what was there.
  abbrev pub text_or : Option (Bytes × Bytes) → Bytes → Bytes
  text_or none old = old
  text_or (some (value, type)) old = c_str value

  abbrev pub short_or : Option (Bytes × Bytes) → ℕ → ℕ
  short_or none old = old
  short_or (some (value, type)) old = P.to_short value type old

  abbrev pub text : P.Container → Bytes → Bytes → Bytes
  text section name old = text_or (found section name) old

  abbrev pub short : P.Container → Bytes → ℕ → ℕ
  short section name old = short_or (found section name) old

  abbrev pub read_database :
      P.Container → Bytes → Bytes → Bytes → Bytes → Bytes → Database → Database
  read_database section ip usr_name pwd db_name port d = record {
    addr = text section ip d.addr;
    usr_name = text section usr_name d.usr_name;
    pwd = text section pwd d.pwd;
    db_name = text section db_name d.db_name;
    port = short section port d.port;
  }

  -- `connects` is `ConnectSql` to the server read; `none` is the end of the process.
  abbrev pub or_exit : Bool → Database → Option Database
  or_exit true d = some d
  or_exit false d = none

  unfoldable pub redis_initialize : (Bytes → ℕ → Bool) → Database → Option Database
  redis_initialize connects d =
      let d' =
        read_database P.redis (codes "redis_server_ip") (codes "redis_usr_name") (codes "redis_pwd")
          (codes "redis_db_name") (codes "redis_server_port") d in
      or_exit (connects d'.addr d'.port) d'

  unfoldable pub token_redis_initialize : (Bytes → ℕ → Bool) → Database → Option Database
  token_redis_initialize connects d =
      let d' =
        read_database P.token_redis (codes "redis_server_ip") (codes "redis_usr_name")
          (codes "redis_pwd") (codes "redis_db_name") (codes "redis_server_port") d in
      or_exit (connects d'.addr d'.port) d'

  -- The connection is commented out in the source.
  unfoldable pub mongodb_initialize : Database → Database
  mongodb_initialize d =
      read_database P.mongodb (codes "mongodb_server_ip") (codes "mongodb_usr_name")
        (codes "mongodb_pwd") (codes "mongodb_db_name") (codes "mongodb_server_port") d

  -- `strncmp` with the length of "production" and its NUL compares the whole texts.
  abbrev pub apns_section : Bytes → P.Container
  apns_section type =
      if strcmp_eq type (codes "production") then P.apns_production else P.apns_development

  unfoldable pub apns_initialize_param : TlsConfig → TlsConfig
  apns_initialize_param c =
      let type = text P.apns_type (codes "apns_server_type") c.type in
      let section = apns_section type in
      record {
        type = type;
        addr = text section (codes "apns_server_ip") c.addr;
        port = short section (codes "apns_server_port") c.port;
        password = text section (codes "apns_key_password") c.password;
        feedback_addr = text section (codes "apns_feedback_server_ip") c.feedback_addr;
        feedback_port = short section (codes "apns_feedback_server_port") c.feedback_port;
        path = text section (codes "ca_cert_path") c.path;
        cert = text section (codes "rsa_client_cert") c.cert;
        key = text section (codes "rsa_client_key") c.key;
      }

  -- There is no password and no type in the section of the C2DM client.
  unfoldable pub c2dm_initialize_param : TlsConfig → TlsConfig
  c2dm_initialize_param c = record c {
    addr = text P.c2dm_client (codes "c2dm_server_ip") c.addr;
    port = short P.c2dm_client (codes "c2dm_server_port") c.port;
    feedback_addr = text P.c2dm_client (codes "c2dm_feedback_server_ip") c.feedback_addr;
    feedback_port = short P.c2dm_client (codes "c2dm_feedback_server_port") c.feedback_port;
    path = text P.c2dm_client (codes "c2dm_cert_path") c.path;
    cert = text P.c2dm_client (codes "c2dm_client_cert") c.cert;
    key = text P.c2dm_client (codes "c2dm_client_key") c.key;
  }

  unfoldable pub app_initialize_param : ListenerConfig → ListenerConfig
  app_initialize_param c = record c {
    addr = text P.server (codes "web_server_ip") c.addr;
    port = short P.server (codes "web_server_port") c.port;
  }

  unfoldable pub mqtt_initialize_param : ListenerConfig → ListenerConfig
  mqtt_initialize_param c = record c {
    addr = text P.mqtt_server (codes "mqtt_server_ip") c.addr;
    port = short P.mqtt_server (codes "mqtt_server_port") c.port;
  }

  unfoldable pub push_initialize_param : ListenerConfig → ListenerConfig
  push_initialize_param c = record {
    addr = text P.c2dm_server (codes "c2dm_server_ip") c.addr;
    port = short P.c2dm_server (codes "c2dm_server_port") c.port;
    path = text P.c2dm_server (codes "c2dm_cert_path") c.path;
    cert = text P.c2dm_server (codes "c2dm_server_cert") c.cert;
    key = text P.c2dm_server (codes "c2dm_server_key") c.key;
  }
