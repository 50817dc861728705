-- ===== src/App/Request.antt =====
-- ApsAppRequestMessage.cpp: a request in JSON, and the messages for the two kinds of devices in it.
pub mod Alert
use pushserver.Prelude.{
  ℕ, ◌%◌, ◌^◌, List, [], ◌∷◌, Bool, true, false, ◌||◌, Option, none, some, Bytes, codes, c_str,
  strcmp_eq, if◌then◌else◌, Result, ok, ◌>>=◌, or_throw,
}
use pushserver.Json.{Json}

-- The constructor sets no member: numbers and flags hold what was in memory.
pub record Request (J : Json) : Type 0 where
  pub root : J.Value
  pub command : Bytes
  pub app_id : Bytes
  pub clean_flag : Bool
  pub keepalive : ℕ
  pub mid : ℕ
  pub qos : ℕ
  pub remain_flag : Bool
  pub time_on_live : ℕ
  pub user_id : Bytes
  pub device_id : Bytes
  pub android : J.Value
  pub ios : J.Value

module _ (J : Json) where
  -- `v[name]` for a read: the value, and `v` with the member it may have gained.
  abbrev pub member : J.Value → Bytes → Result (J.Value × J.Value)
  member v name = do x ← or_throw (J.get v name); ok (x, J.touch v name)

  unfoldable pub has_member : Bytes → List Bytes → Bool
  has_member name [] = false
  has_member name (n ∷ names) = strcmp_eq n name || has_member name names

  -- A platform's message, which takes the common alert where it has none of its own.
  unfoldable pub with_alert : Option J.Value → J.Value → Result J.Value
  unfolding has_member
  with_alert alert v = do
    names ← or_throw (J.members v)
    if has_member (codes "alert") names
        then ok v
        else elim alert [ none ↦ ok v | some a ↦ or_throw (J.set v (codes "alert") a) ]

  -- `audience[name].asCString()`, assigned to a string.
  abbrev pub audience_string : J.Value → Bytes → Result Bytes
  audience_string audience name = do
    v ← or_throw (J.get audience name)
    s ← or_throw (J.as_c_string v)
    ok (c_str s)

  abbrev pub read_id : J.Value → Bytes → Request J → Result (Request J)
  read_id audience name r =
      if strcmp_eq name (codes "usrid")
      then (audience_string audience (codes "usrid") >>= λ s. ok (record r { user_id = s }))
      else (if strcmp_eq name (codes "devid")
          then (audience_string audience (codes "devid") >>= λ s. ok (record r { device_id = s }))
          else ok r)

  -- The loop over the audience's members.
  unfoldable pub read_audience : J.Value → List Bytes → Request J → Result (Request J)
  read_audience audience [] r = ok r
  read_audience audience (name ∷ names) r = do
    r' ← read_id audience name r
    read_audience audience names r'

  -- What the loop over the notification's members keeps: `alert` with `alert_flag`, and the
  -- messages of the two platforms with their flags.
  pub record Notice : Type 0 where
    pub alert : Option J.Value
    pub ios_flag : Bool
    pub ios : J.Value
    pub android_flag : Bool
    pub android : J.Value

  -- `notification[name]`, with the common alert read so far.
  abbrev pub platform_message : J.Value → Bytes → Option J.Value → Result J.Value
  unfolding with_alert
  platform_message notification name alert = do
    v ← or_throw (J.get notification name)
    with_alert alert v

  abbrev pub read_member : J.Value → Bytes → Notice → Result Notice
  read_member notification name n =
      if strcmp_eq name (codes "alert")
      then (or_throw (J.get notification (codes "alert")) >>= λ v. ok (record n { alert = some v }))
      else (if strcmp_eq name (codes "ios")
          then (platform_message notification (codes "ios") n.alert >>= λ v.
              ok (record n { ios_flag = true; ios = v }))
          else (if strcmp_eq name (codes "android")
              then (platform_message notification (codes "android") n.alert >>= λ v.
                  ok (record n { android_flag = true; android = v }))
              else ok n))

  unfoldable pub read_notification : J.Value → List Bytes → Notice → Result Notice
  read_notification notification [] n = ok n
  read_notification notification (name ∷ names) n = do
    n' ← read_member notification name n
    read_notification notification names n'

  -- A platform that the notification does not name gets the common alert.
  abbrev pub default_alert : Option J.Value → Bool → J.Value → Result J.Value
  default_alert none flag v = ok v
  default_alert (some a) flag v = if flag then ok v else or_throw (J.set v (codes "alert") a)

  unfoldable pub parse_connect : Request J → Result (Request J)
  parse_connect r = do
    (app_id, root) ← member r.root (codes "appid")
    app ← or_throw (J.as_string app_id)
    (clean, root) ← member root (codes "cleansession")
    clean_flag ← or_throw (J.as_bool clean)
    (keep, root) ← member root (codes "keepalive")
    keepalive ← or_throw (J.as_int keep)
    ok (record r { root = root; app_id = app; clean_flag = clean_flag; keepalive = keepalive })

  abbrev pub parse_audience : Request J → Result (Request J)
  unfolding read_audience
  parse_audience r = do
    (audience, root) ← member r.root (codes "audience")
    names ← or_throw (J.members audience)
    read_audience audience names (record r { root = root })

  abbrev pub parse_notification : Request J → Result (Request J)
  unfolding read_notification
  parse_notification r = do
    (notification, root) ← member r.root (codes "notification")
    names ← or_throw (J.members notification)
    n ← read_notification notification names (record {
      alert = none;
      ios_flag = false;
      ios = r.ios;
      android_flag = false;
      android = r.android;
    })
    android ← default_alert n.alert n.android_flag n.android
    ios ← default_alert n.alert n.ios_flag n.ios
    ok (record r { root = root; android = android; ios = ios })

  unfoldable pub parse_publish : Request J → Result (Request J)
  parse_publish r = do
    (id, root) ← member r.root (codes "msgid")
    mid ← or_throw (J.as_int id)
    (q, root) ← member root (codes "Qos")
    qos ← or_throw (J.as_int q)
    (remain, root) ← member root (codes "remain")
    remain_flag ← or_throw (J.as_bool remain)
    (options, root) ← member root (codes "options")
    live ← or_throw (J.get options (codes "time_to_live"))
    time_on_live ← or_throw (J.as_int live)
    r' ← parse_audience (record r {
      root = root;
      mid = mid % 2 ^ 16;
      qos = qos;
      remain_flag = remain_flag;
      time_on_live = time_on_live;
    })
    parse_notification r'

  unfoldable pub parse_request_message : Bytes → Request J → Result (Request J × Bool)
  unfolding parse_connect parse_publish
  parse_request_message message r = elim (J.parse message) [
    | none ↦ ok (r, false)
    | some root ↦ do
      (name, root') ← member root (codes "name")
      command ← or_throw (J.as_string name)
      let named = record r { root = root'; command = command }
      r' ←
          if strcmp_eq command (codes "connect")
          then parse_connect named
          else (if strcmp_eq command (codes "publish") then parse_publish named else ok named)
      ok (r', true)
  ]
