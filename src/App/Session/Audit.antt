-- ===== src/App/Session/Audit.antt =====
-- What is recorded of a request, and which record is then asked for: the calls of ApsMessageStatus in
-- ApsAppServerSession.cpp.
pub mod Closed
use pushserver.Prelude.{
  ◌≡◌, refl, ap, ◌∙◌, List, [], ◌∷◌, Bool, true, false, Bytes, codes, c_str, strcmp_eq, ◌&&◌,
  if◌then◌else◌, ok, ◌>>=◌, Ends, Ends-bind, Ends-if, Ends-map, Bool-cases, inl, inr, subst, sym,
}
use pushserver.Json.{Json}
use pushserver.Redis.{Redis}
use pushserver.App.Request.{Request, parse_request_message}
use pushserver.App.Response.{get_response_message}
use pushserver.App.Session.Handlers.{answer_then, publish-keeps}
use pushserver.App.Session.{
  Session, Effect, is_new, is_connected, add_message, update_message, on_connect, on_ping_req,
  on_undefined_cmd, on_disconn, push, publish, finish_publish, on_publish, dispatch, receive,
  handle_request, on_http_request, emit, refresh_timeout, answer, refusal,
}

-- A call of `AddMessage`, with the session's application; and one of `UpdateMessage`, which looks
-- for a record with a time and an application. In the record of a connect, `AddMessage` leaves the
-- application of the message.
pub data Entry (J : Json) : Type 0 where
  recorded : Request J → Bytes → Entry J
  dealt : Bytes → Bytes → Entry J

module _ {J : Json} where
  -- The entries of a log, the newest first.
  unfoldable pub audit : List (Effect J) → List (Entry J)
  audit [] = []
  audit (add_message request app_id ∷ log) = recorded request app_id ∷ audit log
  audit (update_message time app_id status ∷ log) = dealt time app_id ∷ audit log
  audit (_ ∷ log) = audit log

  -- The session's application behind a request: only a connect of a new session changes it.
  abbrev pub app_id_after : Request J → Session J → Bytes
  app_id_after request s =
      if strcmp_eq request.command (codes "connect")
      then (if is_new s.client_state then request.app_id else s.app_id)
      else s.app_id

  abbrev pub Dealt : Bytes → Session J → Session J → Type 0
  Dealt app_id s s' =
      (audit s'.log ≡ dealt s.receive_time app_id ∷ audit s.log) × (s'.app_id ≡ app_id)

  on_connect-Dealt :
      (request : Request J) (s : Session J)
      → Ends
          (Dealt (if is_new s.client_state then request.app_id else s.app_id) s)
          (on_connect J request s)
  unfolding on_connect audit
  on_connect-Dealt request s = elim (Bool-cases (is_new s.client_state)) [
    | inl e ↦ rw e (answer_then (Dealt request.app_id s) _ _ _ _ (λ text. (refl, refl)))
    | inr e ↦ rw e (answer_then (Dealt s.app_id s) _ _ s _ (λ text. (refl, refl)))
  ]

  on_ping_req-Dealt :
      (request : Request J) (s : Session J) → Ends (Dealt s.app_id s) (on_ping_req J request s)
  unfolding on_ping_req audit
  on_ping_req-Dealt request s =
      Ends-if (Dealt s.app_id s) (is_connected s.client_state) _ _
        (λ e. answer_then (Dealt s.app_id s) _ _ s _ (λ text. (refl, refl)))
        (λ e. answer_then (Dealt s.app_id s) _ _ s _ (λ text. (refl, refl)))

  on_undefined_cmd-Dealt :
      (request : Request J) (s : Session J) → Ends (Dealt s.app_id s) (on_undefined_cmd J request s)
  unfolding on_undefined_cmd audit
  on_undefined_cmd-Dealt request s = answer_then (Dealt s.app_id s) _ _ s _ (λ text. (refl, refl))

  on_disconn-Dealt :
      (request : Request J) (s : Session J) → Dealt s.app_id s (on_disconn J request s)
  unfolding on_disconn audit
  on_disconn-Dealt request s = elim (Bool-cases (is_connected s.client_state)) [
    | inl e ↦ rw e (refl, refl)
    | inr e ↦ rw e (refl, refl)
  ]

  -- A push writes neither.
  abbrev Silent : Session J → Session J → Type 0
  Silent s s' =
      (audit s'.log ≡ audit s.log) × (s'.app_id ≡ s.app_id) × (s'.receive_time ≡ s.receive_time)

  push-Silent :
      (request : Request J) (token type : Bytes) (s : Session J)
      → Silent s (push J request token type s)
  unfolding audit
  push-Silent request token type s = elim (Bool-cases (strcmp_eq type (codes "ios"))) [
    | inl e ↦ rw e (refl, refl, refl)
    | inr e ↦ rw e (refl, refl, refl)
  ]

  publish-Silent :
      (redis : Redis) (request : Request J) (s : Session J)
      → Ends (λ done. Silent s done.0) (publish J redis request request.device_id s)
  publish-Silent redis request s =
      publish-keeps Silent (λ s. (refl, refl, refl))
        (λ s t u (a, b, c) (a', b', c'). (a' ∙ a, b' ∙ b, c' ∙ c)) request (push-Silent request)
        redis request.device_id s

  finish_publish-Dealt :
      (request : Request J) (s s' : Session J) (flag : Bool)
      → Silent s s'
      → Ends (Dealt s.app_id s) (finish_publish J request (s', flag))
  unfolding finish_publish audit
  finish_publish-Dealt request s s' true (a, b, c) =
      answer_then (Dealt s.app_id s) _ _ s' _ (λ text. (rw (a, b, c) refl, b))
  finish_publish-Dealt request s s' false (a, b, c) =
      answer_then (Dealt s.app_id s) _ _ s' _ (λ text. (rw (a, b, c) refl, b))

  on_publish-Dealt :
      (redis : Redis) (request : Request J) (s : Session J)
      → Ends (Dealt s.app_id s) (on_publish J redis request s)
  unfolding on_publish audit
  on_publish-Dealt redis request s =
      Ends-if (Dealt s.app_id s) (is_connected s.client_state) _ _
        (λ e.
          Ends-bind (λ done. Silent s done.0) (Dealt s.app_id s)
            (publish J redis request request.device_id s) _ (publish-Silent redis request s)
            (λ done q. finish_publish-Dealt request s done.0 done.1 q))
        (λ e. answer_then (Dealt s.app_id s) _ _ s _ (λ text. (refl, refl)))

  dispatch-Dealt :
      (redis : Redis) (request : Request J) (s : Session J)
      → Ends (Dealt (app_id_after request s) s) (dispatch J redis request s)
  unfolding dispatch
  dispatch-Dealt redis request s = elim (Bool-cases (strcmp_eq request.command (codes "connect"))) [
    | inl e ↦ rw e (on_connect-Dealt request s)
    | inr e ↦ rw e (
        Ends-if (Dealt s.app_id s) (strcmp_eq request.command (codes "pingreq")) _ _
          (λ h. on_ping_req-Dealt request s)
          (λ h.
            Ends-if (Dealt s.app_id s) (strcmp_eq request.command (codes "publish")) _ _
              (λ h. on_publish-Dealt redis request s)
              (λ h.
                Ends-if (Dealt s.app_id s) (strcmp_eq request.command (codes "disconn")) _ _
                  (λ h. on_disconn-Dealt request s) (λ h. on_undefined_cmd-Dealt request s))))
  ]

  -- What a request leaves: nothing where it could not be parsed.
  abbrev pub Audited : Request J → Bool → Session J → Session J → Type 0
  Audited request true s s' =
      (audit s'.log
        ≡ dealt s.now (app_id_after request s) ∷ recorded request s.app_id ∷ audit s.log)
      × (s'.app_id ≡ app_id_after request s)
  Audited request false s s' = (audit s'.log ≡ audit s.log) × (s'.app_id ≡ s.app_id)

  handle_request-Audited :
      (redis : Redis) (request : Request J) (parsed : Bool) (s : Session J)
      → Ends (Audited request parsed s) (handle_request J redis (request, parsed) s)
  unfolding handle_request answer audit
  handle_request-Audited redis request true s = dispatch-Dealt redis request (receive J request s)
  handle_request-Audited redis request false s =
      Ends-map (Audited request false s) (get_response_message J (refusal J request 7)) _
        (λ text. (refl, refl))

  -- Whatever the command and the state: for a request that could be parsed, where it is handled
  -- without an exception or an overrun, `AddMessage` is called once, with the application that the
  -- session had, and then `UpdateMessage` once, with the present time and the application that the
  -- session has behind the request, which only a connect of a new session changes. For one that
  -- could not be parsed neither is called.
  pub on_http_request-Audited :
      (redis : Redis) (r request : Request J) (content : Bytes) (parsed : Bool) (s : Session J)
      → parse_request_message J (c_str content) r ≡ ok (request, parsed)
      → Ends (Audited request parsed s) (on_http_request J redis r content s)
  unfolding on_http_request audit
  on_http_request-Audited redis r request content true s e =
      rw e (handle_request-Audited redis request true (emit J refresh_timeout s))
  on_http_request-Audited redis r request content false s e =
      rw e (handle_request-Audited redis request false (emit J refresh_timeout s))
