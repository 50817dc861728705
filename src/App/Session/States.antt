-- ===== src/App/Session/States.antt =====
-- The states of a provider's session, and what a request can do in each: ApsAppServerSession.cpp.
use pushserver.Prelude.{
  ◌⊎◌, ℕ, suc, ◌+◌, ◌≡◌, refl, ◌∙◌, List, [], ◌∷◌, Bool, true, false, Bytes, codes, strcmp_eq,
  if◌then◌else◌, ok, Ends, Ends-bind, Ends-map, Ends-if, arith, Bool-cases, inl, inr,
}
use pushserver.Json.{Json}
use pushserver.Redis.{Redis}
use pushserver.App.Request.{Request}
use pushserver.App.Response.{Response, get_response_message}
use pushserver.App.Session.Handlers.{answer_then, publish-keeps}
use pushserver.App.Session.{
  Session, ClientState, cs_new, cs_rec_connect, cs_send_connect_res, cs_connected, cs_disconnecting,
  is_new, is_connected, Status, Effect, respond, push_ios, push_android, answer, on_connect,
  on_ping_req, on_undefined_cmd, on_disconn, push, publish, finish_publish, on_publish, dispatch,
}

-- A session is opened once and closed once.
pub data Step : ClientState → ClientState → Type 0 where
  stay : {c : ClientState} → Step c c
  open_session : Step cs_new cs_connected
  close_session : Step cs_connected cs_disconnecting

pub data Command : Type 0 where
  connect : Command
  pingreq : Command
  publishing : Command
  disconn : Command
  undefined : Command

unfoldable pub command_of : Bytes → Command
command_of c =
    if strcmp_eq c (codes "connect")
    then connect
    else (if strcmp_eq c (codes "pingreq")
        then pingreq
        else (if strcmp_eq c (codes "publish")
            then publishing
            else (if strcmp_eq c (codes "disconn") then disconn else undefined)))

-- The answers that a command gets.
abbrev pub answers : Command → ℕ
answers disconn = 0
answers _ = 1

opens : (c : ClientState) → is_new c ≡ true → Step c cs_connected
opens cs_new h = open_session
opens cs_rec_connect h = cc
opens cs_send_connect_res h = cc
opens cs_connected h = cc
opens cs_disconnecting h = cc

closes : (c : ClientState) → is_connected c ≡ true → Step c cs_disconnecting
closes cs_connected h = close_session
closes cs_new h = cc
closes cs_rec_connect h = cc
closes cs_send_connect_res h = cc
closes cs_disconnecting h = cc

module _ {J : Json} where
  -- The number of the answers in a log, and its pushes: the platform (iOS or not), and the token.
  unfoldable pub responses : List (Effect J) → ℕ
  responses [] = 0
  responses (respond st text ∷ log) = suc (responses log)
  responses (_ ∷ log) = responses log

  unfoldable pub pushes : List (Effect J) → List (Bool × Bytes)
  pushes [] = []
  pushes (push_ios token text ∷ log) = (true, token) ∷ pushes log
  pushes (push_android token text ∷ log) = (false, token) ∷ pushes log
  pushes (_ ∷ log) = pushes log

  -- What handling a request may do: `n` answers, a step of the state, and pushes only in a
  -- session that is open.
  abbrev pub Handled : ℕ → Session J → Session J → Type 0
  Handled n s s' =
      Step s.client_state s'.client_state
      × (responses s'.log ≡ n + responses s.log)
      × ((is_connected s.client_state ≡ true) ⊎ (pushes s'.log ≡ pushes s.log))

  abbrev pub Answered : ℕ → Session J → Session J → Type 0
  Answered n s s' =
      (s'.client_state ≡ s.client_state)
      × (responses s'.log ≡ n + responses s.log)
      × (pushes s'.log ≡ pushes s.log)

  pub answer-Answered :
      (status : Status) (r : Response) (s : Session J) → Ends (Answered 1 s) (answer J status r s)
  unfolding answer responses pushes
  answer-Answered status r s =
      Ends-map (Answered 1 s) (get_response_message J r) _ (λ text. (refl, omega arith, refl))

  on_connect-Handled :
      (request : Request J) (s : Session J) → Ends (Handled 1 s) (on_connect J request s)
  unfolding on_connect responses pushes
  on_connect-Handled request s =
      Ends-if (Handled 1 s) (is_new s.client_state) _ _
        (λ e.
          answer_then (Handled 1 s) _ _ _ _
            (λ text. (opens s.client_state e, omega arith, inr refl)))
        (λ e. answer_then (Handled 1 s) _ _ s _ (λ text. (stay, omega arith, inr refl)))

  on_ping_req-Handled :
      (request : Request J) (s : Session J) → Ends (Handled 1 s) (on_ping_req J request s)
  unfolding on_ping_req responses pushes
  on_ping_req-Handled request s =
      Ends-if (Handled 1 s) (is_connected s.client_state) _ _
        (λ e. answer_then (Handled 1 s) _ _ s _ (λ text. (stay, omega arith, inr refl)))
        (λ e. answer_then (Handled 1 s) _ _ s _ (λ text. (stay, omega arith, inr refl)))

  on_undefined_cmd-Handled :
      (request : Request J) (s : Session J) → Ends (Handled 1 s) (on_undefined_cmd J request s)
  unfolding on_undefined_cmd responses pushes
  on_undefined_cmd-Handled request s =
      answer_then (Handled 1 s) _ _ s _ (λ text. (stay, omega arith, inr refl))

  on_disconn-Handled :
      (request : Request J) (s : Session J) → Ends (Handled 0 s) (ok (on_disconn J request s))
  unfolding on_disconn responses pushes
  on_disconn-Handled request s = elim (Bool-cases (is_connected s.client_state)) [
    | inl e ↦ rw e (closes s.client_state e, omega arith, inr refl)
    | inr e ↦ rw e (stay, omega arith, inr refl)
  ]

  -- A push neither answers nor changes the state.
  abbrev Quiet : Session J → Session J → Type 0
  Quiet s s' = (s'.client_state ≡ s.client_state) × (responses s'.log ≡ responses s.log)

  push-Quiet :
      (request : Request J) (token type : Bytes) (s : Session J)
      → Quiet s (push J request token type s)
  unfolding responses
  push-Quiet request token type s = elim (Bool-cases (strcmp_eq type (codes "ios"))) [
    | inl e ↦ rw e (refl, refl)
    | inr e ↦ rw e (refl, refl)
  ]

  publish-Quiet :
      (redis : Redis) (request : Request J) (device_id : Bytes) (s : Session J)
      → Ends (λ done. Quiet s done.0) (publish J redis request device_id s)
  publish-Quiet redis request device_id s =
      publish-keeps Quiet (λ s. (refl, refl)) (λ s t u q q'. (q'.0 ∙ q.0, q'.1 ∙ q.1)) request
        (push-Quiet request) redis device_id s

  finish_publish-Handled :
      (request : Request J) (s s' : Session J) (flag : Bool)
      → is_connected s.client_state ≡ true
      → Quiet s s'
      → Ends (Handled 1 s) (finish_publish J request (s', flag))
  unfolding finish_publish responses
  finish_publish-Handled request s s' true open_ q =
      answer_then (Handled 1 s) _ _ s' _ (λ text. (rw q.0 stay, omega (arith, q.1), inl open_))
  finish_publish-Handled request s s' false open_ q =
      answer_then (Handled 1 s) _ _ s' _ (λ text. (rw q.0 stay, omega (arith, q.1), inl open_))

  on_publish-Handled :
      (redis : Redis) (request : Request J) (s : Session J)
      → Ends (Handled 1 s) (on_publish J redis request s)
  unfolding on_publish responses pushes
  on_publish-Handled redis request s =
      Ends-if (Handled 1 s) (is_connected s.client_state) _ _
        (λ e.
          Ends-bind (λ done. Quiet s done.0) (Handled 1 s)
            (publish J redis request request.device_id s) _
            (publish-Quiet redis request request.device_id s)
            (λ done q. finish_publish-Handled request s done.0 done.1 e q))
        (λ e. answer_then (Handled 1 s) _ _ s _ (λ text. (stay, omega arith, inr refl)))

  -- Whatever the request and the state: where its handler returns, the state has stayed, or went
  -- from new to connected or from connected to disconnecting; the provider got one answer, or none
  -- to a disconn; and something was pushed only if the session was connected.
  pub dispatch-Handled :
      (redis : Redis) (request : Request J) (s : Session J)
      → Ends (Handled (answers (command_of request.command)) s) (dispatch J redis request s)
  unfolding command_of dispatch
  dispatch-Handled redis request s =
      elim (Bool-cases (strcmp_eq request.command (codes "connect"))) [
        | inl e ↦ rw e (on_connect-Handled request s)
        | inr e ↦ elim (Bool-cases (strcmp_eq request.command (codes "pingreq"))) [
          | inl e' ↦ rw (e, e') (on_ping_req-Handled request s)
          | inr e' ↦ elim (Bool-cases (strcmp_eq request.command (codes "publish"))) [
            | inl f ↦ rw (e, e', f) (on_publish-Handled redis request s)
            | inr f ↦ elim (Bool-cases (strcmp_eq request.command (codes "disconn"))) [
              | inl f' ↦ rw (e, e', f, f') (on_disconn-Handled request s)
              | inr f' ↦ rw (e, e', f, f') (on_undefined_cmd-Handled request s)
            ]
          ]
        ]
      ]
