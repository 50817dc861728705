-- ===== src/App/Session/Serve.antt =====
-- The life of a provider's session, over any sequence of requests: ApsAppServerSession.cpp.
use pushserver.Prelude.{
  ◌⊎◌, inl, inr, ◌≡◌, refl, ◌∙◌, List, [], ◌∷◌, Bool, true, false, Bytes, Ends, Ends-bind, Ends-any,
  Ends-weaken, c_str,
}
use pushserver.Json.{Json}
use pushserver.Redis.{Redis}
use pushserver.App.Request.{Request, parse_request_message}
use pushserver.App.Session.{
  Session, ClientState, cs_disconnecting, is_connected, refresh_timeout, emit, refusal, receive,
  http_bad_request, handle_request, on_http_request, serve,
}
use pushserver.App.Session.States.{
  Step, stay, open_session, close_session, answers, command_of, pushes, Handled, dispatch-Handled,
  Answered, answer-Answered,
}

module _ {J : Json} where
  -- Pushes come from open sessions only, and the state makes a step.
  abbrev pub Safe : Session J → Session J → Type 0
  Safe s s' =
      Step s.client_state s'.client_state
      × ((is_connected s.client_state ≡ true) ⊎ (pushes s'.log ≡ pushes s.log))

  handle_request-Safe :
      (redis : Redis) (found : Request J × Bool) (s : Session J)
      → Ends (Safe s) (handle_request J redis found s)
  unfolding handle_request pushes
  handle_request-Safe redis (request, true) s =
      Ends-weaken (Handled (answers (command_of request.command)) (receive J request s)) (Safe s) _
        (dispatch-Handled redis request (receive J request s)) (λ s' h. (h.0, h.2))
  handle_request-Safe redis (request, false) s =
      Ends-weaken (Answered 1 s) (Safe s) _
        (answer-Answered http_bad_request (refusal J request 7) s) (λ s' h. (rw h.0 stay, inr h.2))

  pub on_http_request-Safe :
      (redis : Redis) (r : Request J) (content : Bytes) (s : Session J)
      → Ends (Safe s) (on_http_request J redis r content s)
  unfolding on_http_request pushes
  on_http_request-Safe redis r content s =
      Ends-bind (λ found. Unit) (Safe s) (parse_request_message J (c_str content) r) _
        (Ends-any (λ found. Unit) _ (λ found. tt))
        (λ found h. handle_request-Safe redis found (emit J refresh_timeout s))

closed_quiet :
    {J : Json} (s s' : Session J)
    → s.client_state ≡ cs_disconnecting
    → (is_connected s.client_state ≡ true) ⊎ (pushes s'.log ≡ pushes s.log)
    → pushes s'.log ≡ pushes s.log
closed_quiet s s' h (inl e) = let bad : false ≡ true = rw h at e in cc
closed_quiet s s' h (inr p) = p

step_closed : (c d : ClientState) → Step c d → c ≡ cs_disconnecting → d ≡ cs_disconnecting
step_closed c d stay h = h
step_closed c d open_session h = cc
step_closed c d close_session h = refl

module _ {J : Json} where
  -- Once a session is closed it stays closed, whatever is sent to it, and pushes nothing more.
  pub serve-closed :
      (redis : Redis) (rs : List (Bytes × Request J × Bytes)) (s : Session J)
      → s.client_state ≡ cs_disconnecting
      → Ends
          (λ s'. (s'.client_state ≡ cs_disconnecting) × (pushes s'.log ≡ pushes s.log))
          (serve J redis rs s)
  unfolding serve
  serve-closed redis [] s h = (h, refl)
  serve-closed redis ((now, r, content) ∷ rs) s h =
      Ends-bind (Safe (record s { now = now })) _
        (on_http_request J redis r content (record s { now = now })) _
        (on_http_request-Safe redis r content (record s { now = now }))
        (λ s' q.
          Ends-weaken (λ t. (t.client_state ≡ cs_disconnecting) × (pushes t.log ≡ pushes s'.log)) _
            (serve J redis rs s')
            (serve-closed redis rs s' (step_closed s.client_state s'.client_state q.0 h))
            (λ t q'. (q'.0, q'.1 ∙ closed_quiet s s' h q.1)))
