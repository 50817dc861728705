-- ===== src/App/Session/Closing.antt =====
-- Which connection record a provider's disconn closes: `OnConnect` and `OnDisconn` of
-- ApsAppServerSession.cpp.
use pushserver.Prelude.{
  ◌≡◌, ◌≢◌, ◌⊎◌, inl, inr, refl, ap, ◌∙◌, List, [], ◌∷◌, All, Bool, true, false, Result, Bytes,
  codes, c_str, strcmp_eq, ok, Ends, Ends-any, Ends-bind, Ends-if, Ends-weaken, Ends-map,
  Bool-cases, bind_known, take_then, subst, sym,
}
use pushserver.Json.{Json}
use pushserver.Redis.{Redis}
use pushserver.App.Request.{Request, parse_request_message}
use pushserver.App.Response.{get_response_message}
use pushserver.App.Session.Handlers.{answer_then, publish-keeps}
use pushserver.App.Session.{
  Session, cs_new, cs_connected, cs_disconnecting, is_new, is_connected, Effect,
  update_connect_status, emit, refresh_timeout, receive, push, publish, finish_publish, on_connect,
  on_ping_req, on_publish, on_undefined_cmd, on_disconn, dispatch, answer, refusal, handle_request,
  on_http_request, serve,
}

module _ {J : Json} where
  -- The start times of the records that were to be closed, the newest first.
  unfoldable pub closed_starts : List (Effect J) → List Bytes
  closed_starts [] = []
  closed_starts (update_connect_status start app status ∷ log) = start ∷ closed_starts log
  closed_starts (_ ∷ log) = closed_starts log

  -- The session was connected at a time, and is connected and has asked for no record to be closed,
  -- or is disconnecting and has asked for one, which has another start.
  abbrev pub Missed : Bytes → Session J → Type 0
  Missed t s =
      (s.connect_time ≡ t)
      × (((s.client_state ≡ cs_connected) × (closed_starts s.log ≡ []))
          ⊎ ((s.client_state ≡ cs_disconnecting)
              × ((start : Bytes) × (closed_starts s.log ≡ start ∷ []) × (start ≢ t))))

  -- Nothing of this changes.
  abbrev Quiet : Session J → Session J → Type 0
  Quiet s s' =
      (s'.client_state ≡ s.client_state)
      × (s'.connect_time ≡ s.connect_time)
      × (closed_starts s'.log ≡ closed_starts s.log)

  Quiet-Missed : (t : Bytes) (s s' : Session J) → Missed t s → Quiet s s' → Missed t s'
  Quiet-Missed t s s' (time, inl (open_, none_)) (state, same, closed) =
      (same ∙ time, inl (state ∙ open_, closed ∙ none_))
  Quiet-Missed t s s' (time, inr (shut, (start, one, other))) (state, same, closed) =
      (same ∙ time, inr (state ∙ shut, (start, closed ∙ one, other)))

  push-Quiet :
      (request : Request J) (token type : Bytes) (s : Session J)
      → Quiet s (push J request token type s)
  unfolding closed_starts
  push-Quiet request token type s = elim (Bool-cases (strcmp_eq type (codes "ios"))) [
    | inl e ↦ rw e (refl, refl, refl)
    | inr e ↦ rw e (refl, refl, refl)
  ]

  publish-Quiet :
      (redis : Redis) (request : Request J) (s : Session J)
      → Ends (λ done. Quiet s done.0) (publish J redis request request.device_id s)
  publish-Quiet redis request s =
      publish-keeps Quiet (λ s. (refl, refl, refl))
        (λ s t u (a, b, c) (a', b', c'). (a' ∙ a, b' ∙ b, c' ∙ c)) request (push-Quiet request)
        redis request.device_id s

  finish_publish-Quiet :
      (request : Request J) (s s' : Session J) (b : Bool)
      → Quiet s s'
      → Ends (Quiet s) (finish_publish J request (s', b))
  unfolding finish_publish closed_starts
  finish_publish-Quiet request s s' true q = answer_then (Quiet s) _ _ s' _ (λ text. q)
  finish_publish-Quiet request s s' false q = answer_then (Quiet s) _ _ s' _ (λ text. q)

  on_publish-Quiet :
      (redis : Redis) (request : Request J) (s : Session J)
      → Ends (Quiet s) (on_publish J redis request s)
  unfolding on_publish closed_starts
  on_publish-Quiet redis request s =
      Ends-if (Quiet s) (is_connected s.client_state) _ _
        (λ e.
          Ends-bind (λ done. Quiet s done.0) (Quiet s) (publish J redis request request.device_id s)
            _ (publish-Quiet redis request s)
            (λ done q. finish_publish-Quiet request s done.0 done.1 q))
        (λ e. answer_then (Quiet s) _ _ s _ (λ text. (refl, refl, refl)))

  on_ping_req-Quiet :
      (request : Request J) (s : Session J) → Ends (Quiet s) (on_ping_req J request s)
  unfolding on_ping_req closed_starts
  on_ping_req-Quiet request s =
      Ends-if (Quiet s) (is_connected s.client_state) _ _
        (λ e. answer_then (Quiet s) _ _ s _ (λ text. (refl, refl, refl)))
        (λ e. answer_then (Quiet s) _ _ s _ (λ text. (refl, refl, refl)))

  on_undefined_cmd-Quiet :
      (request : Request J) (s : Session J) → Ends (Quiet s) (on_undefined_cmd J request s)
  unfolding on_undefined_cmd closed_starts
  on_undefined_cmd-Quiet request s = answer_then (Quiet s) _ _ s _ (λ text. (refl, refl, refl))

  on_connect-Quiet :
      (request : Request J) (s : Session J)
      → is_new s.client_state ≡ false
      → Ends (Quiet s) (on_connect J request s)
  unfolding on_connect closed_starts
  on_connect-Quiet request s old =
      rw old (answer_then (Quiet s) _ _ s _ (λ text. (refl, refl, refl)))

  Missed-old : (t : Bytes) (s : Session J) → Missed t s → is_new s.client_state ≡ false
  Missed-old t s (time, inl (open_, none_)) = rw open_ refl
  Missed-old t s (time, inr (shut, one)) = rw shut refl

  on_disconn-Missed :
      (t : Bytes) (request : Request J) (s : Session J)
      → s.receive_time ≢ t
      → Missed t s
      → Missed t (on_disconn J request s)
  unfolding on_disconn closed_starts
  on_disconn-Missed t request s later (time, inl (open_, none_)) =
      rw open_ (time, inr (refl, (s.receive_time, ap (λ l. s.receive_time ∷ l) none_, later)))
  on_disconn-Missed t request s later (time, inr (shut, one)) = rw shut (time, inr (refl, one))

  dispatch-Missed :
      (t : Bytes) (redis : Redis) (request : Request J) (s : Session J)
      → s.receive_time ≢ t
      → Missed t s
      → Ends (Missed t) (dispatch J redis request s)
  unfolding dispatch
  dispatch-Missed t redis request s later h =
      Ends-if (Missed t) (strcmp_eq request.command (codes "connect")) _ _
        (λ e. quiet (on_connect J request s) (on_connect-Quiet request s (Missed-old t s h)))
        (λ e.
          Ends-if (Missed t) (strcmp_eq request.command (codes "pingreq")) _ _
            (λ e. quiet (on_ping_req J request s) (on_ping_req-Quiet request s))
            (λ e.
              Ends-if (Missed t) (strcmp_eq request.command (codes "publish")) _ _
                (λ e. quiet (on_publish J redis request s) (on_publish-Quiet redis request s))
                (λ e.
                  Ends-if (Missed t) (strcmp_eq request.command (codes "disconn")) _ _
                    (λ e. on_disconn-Missed t request s later h)
                    (λ e.
                      quiet (on_undefined_cmd J request s) (on_undefined_cmd-Quiet request s)))))
    where
      quiet : (m : Result (Session J)) → Ends (Quiet s) m → Ends (Missed t) m
      quiet m q = Ends-weaken (Quiet s) (Missed t) m q (λ s' q. Quiet-Missed t s s' h q)

  handle_request-Missed :
      (t : Bytes) (redis : Redis) (found : Request J × Bool) (s : Session J)
      → s.now ≢ t
      → Missed t s
      → Ends (Missed t) (handle_request J redis found s)
  unfolding handle_request answer closed_starts
  handle_request-Missed t redis (request, true) s later h =
      dispatch-Missed t redis request (receive J request s) later h
  handle_request-Missed t redis (request, false) s later h =
      Ends-map (Missed t) (get_response_message J (refusal J request 7)) _ (λ text. h)

  on_http_request-Missed :
      (t : Bytes) (redis : Redis) (r : Request J) (content : Bytes) (s : Session J)
      → s.now ≢ t
      → Missed t s
      → Ends (Missed t) (on_http_request J redis r content s)
  unfolding on_http_request closed_starts
  on_http_request-Missed t redis r content s later h =
      Ends-bind (λ found. Unit) (Missed t) (parse_request_message J (c_str content) r) _
        (Ends-any (λ found. Unit) _ (λ found. tt))
        (λ found u. handle_request-Missed t redis found (emit J refresh_timeout s) later h)

  serve-Missed :
      (t : Bytes) (redis : Redis) (rs : List (Bytes × Request J × Bytes)) (s : Session J)
      → All (λ q. q.0 ≢ t) rs
      → Missed t s
      → Ends (Missed t) (serve J redis rs s)
  unfolding serve
  serve-Missed t redis [] s later h = h
  serve-Missed t redis ((now, r, content) ∷ rs) s (first, later) h =
      Ends-bind (Missed t) (Missed t) (on_http_request J redis r content (record s { now = now })) _
        (on_http_request-Missed t redis r content (record s { now = now }) first h)
        (λ s' h'. serve-Missed t redis rs s' later h')

  on_connect-Missed :
      (request : Request J) (s : Session J)
      → s.client_state ≡ cs_new
      → closed_starts s.log ≡ []
      → Ends (Missed s.now) (on_connect J request s)
  unfolding on_connect closed_starts
  on_connect-Missed request s new none_ =
      rw new (answer_then (Missed s.now) _ _ _ _ (λ text. (refl, inl (refl, none_))))

  connect-Missed :
      (redis : Redis) (r request : Request J) (content : Bytes) (s : Session J)
      → s.client_state ≡ cs_new
      → closed_starts s.log ≡ []
      → parse_request_message J (c_str content) r ≡ ok (request, true)
      → request.command ≡ codes "connect"
      → Ends (Missed s.now) (on_http_request J redis r content s)
  unfolding on_http_request handle_request dispatch closed_starts
  connect-Missed redis r request content s new none_ parsed named =
      let s' = receive J request (emit J refresh_timeout s) in
      subst (Ends (Missed s.now))
        (sym (bind_known _ parsed ∙ take_then _ _ (ap (λ c. strcmp_eq c (codes "connect")) named)))
        (on_connect-Missed request s' new none_)

  -- A connect in a new session that has asked for no connection record to be closed, and then any
  -- requests, each at another time than the connect, as long as no exception and no overrun ends
  -- the run: the session keeps the time of the connect as the start of its record, and it is
  -- connected and has asked for no record to be closed, or it is disconnecting and has asked for
  -- one, with a start that is another time.
  pub serve-connect_time :
      (redis : Redis) (r request : Request J) (content now : Bytes)
      (rs : List (Bytes × Request J × Bytes)) (s : Session J)
      → s.client_state ≡ cs_new
      → closed_starts s.log ≡ []
      → parse_request_message J (c_str content) r ≡ ok (request, true)
      → request.command ≡ codes "connect"
      → All (λ q. q.0 ≢ now) rs
      → Ends (Missed now) (serve J redis ((now, r, content) ∷ rs) s)
  unfolding serve
  serve-connect_time redis r request content now rs s new none_ parsed named later =
      Ends-bind (Missed now) (Missed now)
        (on_http_request J redis r content (record s { now = now })) _
        (connect-Missed redis r request content (record s { now = now }) new none_ parsed named)
        (λ s' h. serve-Missed now redis rs s' later h)
