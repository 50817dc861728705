-- ===== src/System/Publish.antt =====
-- From a provider's publish request to the connections of the user's devices: ApsAppServerSession.cpp,
-- PushC2DMClientSocket.cpp, SslSvrSession.cpp and MqttServer.cpp together.
use pushserver.Prelude.{
  ℕ, ◌^◌, ◌≤◌, ◌<◌, ◌≡◌, ◌⊎◌, refl, ap, ◌∙◌, List, [], ◌∷◌, ◌++◌, map, Bool, true, false, some,
  Bytes, codes, c_str, ok, if◌then◌else◌, length, All, bind_known, arith, Bool-cases, inl, inr,
  length-append,
}
use pushserver.Json.{Json}
use pushserver.Redis.{Redis}
use pushserver.Apns.Message.{Message, aps_text}
use pushserver.Mqtt.Packet.Code
use pushserver.Mqtt.Run.{Events, request_arrived, too_big, kept}
use pushserver.Provider.Session.{World, app_id}
use pushserver.Provider.Session.Frames.{Push, IsPush, push_bytes, stream}
use pushserver.Provider.Run.{Turn, Task, reading_request, run}
use pushserver.Provider.Run.Served.{served, run-run_pushes}
use pushserver.Provider.C2dm as C2dm
use pushserver.Provider.C2dm.{payload_text}
use pushserver.Provider.C2dm.Delivery.{message}
use pushserver.Provider.C2dm.Broadcast.{IsReachable, Broadcasts, published, run_pushes-Broadcasts}
use pushserver.App.Request.{Request}
use pushserver.App.Session.{Session, publish_all}
use pushserver.App.Session.Publish.{is_target}
use pushserver.App.Session.Clients.{Clients, perform}
use pushserver.App.Session.Clients.Device.{Device, apple, other, entry, IsDevice, sent_to}
use pushserver.App.Session.Clients.Delivered.{publish_all-perform}

-- The tokens of the devices that are not Apple's and that are pushed to.
abbrev pub reached : Redis → List Device → List Bytes
reached redis [] = []
reached redis (apple bs ∷ devices) = reached redis devices
reached redis (other token type ∷ devices) =
    if is_target redis token type then token ∷ reached redis devices else reached redis devices

abbrev pub messages : Redis → Bytes → List Device → List Push
messages redis android devices = map (λ t. message t android) (reached redis devices)

-- The log once the messages are sent, one after the other.
abbrev pub logged : List Push → List C2dm.Effect → List C2dm.Effect
logged [] log = log
logged (f ∷ fs) log = logged fs (C2dm.sends (push_bytes f) ∷ log)

sent_to-logged :
    (redis : Redis) (ios android : Bytes) (devices : List Device) (log : List C2dm.Effect)
    → sent_to redis ios android [] devices log ≡ logged (messages redis android devices) log
sent_to-logged redis ios android [] log = refl
sent_to-logged redis ios android (apple bs ∷ devices) log =
    sent_to-logged redis ios android devices log
sent_to-logged redis ios android (other token type ∷ devices) log =
    elim (Bool-cases (is_target redis token type)) [
      | inl e ↦ rw e (sent_to-logged redis ios android devices _)
      | inr e ↦ rw e (sent_to-logged redis ios android devices log)
    ]

messages-IsPush :
    (redis : Redis) (android : Bytes) (devices : List Device)
    → length android ≤ 247
    → All IsDevice devices
    → All IsPush (messages redis android devices)
messages-IsPush redis android [] short h = tt
messages-IsPush redis android (apple bs ∷ devices) short h =
    messages-IsPush redis android devices short h.1
messages-IsPush redis android (other token type ∷ devices) short h =
    elim (Bool-cases (is_target redis token type)) [
      | inl e ↦ rw e (
        (
          (
            omega arith,
            omega (arith, h.0.0),
            omega (arith, short, length-append android (codes "}")),
          ),
          h.0.0,
        ),
        messages-IsPush redis android devices short h.1,
      )
      | inr e ↦ rw e (messages-IsPush redis android devices short h.1)
    ]

module _ {J : Json} (redis : Redis) (request : Request J) (new_message : Message)
    (memory ios android : Bytes) (ios_text : c_str (J.write request.ios) ≡ ios)
    (android_text : c_str (J.write request.android) ≡ android)
    (ios_fits : length (aps_text ios) < 2 ^ 8) (android_fits : length android ≤ 247)
    (root root' : J.Value) (parsed : J.parse (payload_text android) ≡ some root)
    (marked : J.set root (codes "appid") (J.of_string app_id) ≡ some root')
    (short : length (J.write root') ≤ 125) where
  -- A publish request to the devices of a user, as in App.Session.Clients.Delivered, where no Send
  -- to the TLS listener fails, and the text for the other devices is, in an aps object, JSON that
  -- takes the application's id as a member and is then at most 125 bytes: the loop over the devices
  -- returns, its pushes are performed, and the C2DM client has sent one push message for each other
  -- device whose token is not known to be invalid, in their order. Where these messages, less than
  -- 2^32 bytes in all, stand in the buffer of a live TLS session that waits for a request, before
  -- any slack, and their tokens are all registered to live device sessions whose sockets take what
  -- they are given, a call of its Run with a read event and with no timeout and no kill keeps it,
  -- waiting for the next request, and leaves the registry as it is; and every device session has
  -- then sent the JSON with the id as one PUBLISH packet with the message id 1, as often as it is
  -- registered for one of the tokens, and has not changed otherwise.
  pub run-publish_all :
      (devices : List Device) (s : Session J) (c c0 : Clients)
      → All IsDevice devices
      → perform new_message memory s.log c ≡ ok c0
      → c0.outcomes ≡ []
      → (holders : ℕ) (t : Turn) (ts : List Turn) (ev : Events) (task : Task) (slack : Bytes)
      → All (IsReachable task.world) (reached redis devices)
      → (ev.timeout ≡ false) × (ev.kill ≡ false) × (ev.reads ≡ true)
      → task.state ≡ reading_request
      → t.live ≡ true
      → (t.read ≡ request_arrived) ⊎ (t.read ≡ too_big)
      → t.buffer ≡ stream (messages redis android devices) ++ slack
      → t.n_len ≡ length (stream (messages redis android devices))
      → length (stream (messages redis android devices)) < 2 ^ 32
      → ((s' : Session J) × (flag : Bool) × (c1 : Clients) × (publish_all J redis request
              (map entry devices)
              s
            ≡ ok (s', flag))
          × (perform new_message memory s'.log c ≡ ok c1)
          × (c1.c2dm.log ≡ logged (messages redis android devices) c0.c2dm.log))
        × ((w' : World) × (run J holders (t ∷ ts) ev task
              ≡ ok (served task (w', Code.success), kept))
            × Broadcasts
                (published J android root root' parsed marked short)
                (reached redis devices)
                task.world
                w')
  run-publish_all devices s c c0 h so_far works holders t ts ev task slack reach events waits live
        arrived bytes n_len small =
      let (s', flag, c1, published_, performed, (queues, log)) =
        publish_all-perform redis request new_message memory ios android ios_text android_text
          ios_fits android_fits c devices s c0 h so_far in
      let (w', pushed_, sessions) =
        run_pushes-Broadcasts J android root root' parsed marked short (reached redis devices)
          task.world reach in
      (
        (
          s',
          flag,
          c1,
          published_,
          performed,
          log
              ∙ ap (λ outcomes. sent_to redis ios android outcomes devices c0.c2dm.log) works
              ∙ sent_to-logged redis ios android devices c0.c2dm.log,
        ),
        (
          w',
          run-run_pushes J holders t ts ev task (messages redis android devices) slack events waits
                live arrived bytes n_len (messages-IsPush redis android devices android_fits h)
                small
              ∙ bind_known _ pushed_,
          sessions,
        ),
      )
