-- ===== src/App/Session/Life.antt =====
-- A provider's session from its construction on: ApsAppServerSession.cpp.
use pushserver.Prelude.{
  ◌⊎◌, inl, inr, ◌≡◌, refl, ◌∙◌, List, [], ◌∷◌, true, false, Bytes, Ends, Ends-bind,
}
use pushserver.Json.{Json}
use pushserver.Redis.{Redis}
use pushserver.App.Request.{Request}
use pushserver.App.Session.{
  Session, ClientState, cs_new, cs_connected, cs_disconnecting, on_http_request, serve,
}
use pushserver.App.Session.States.{Step, stay, open_session, close_session, pushes}
use pushserver.App.Session.Serve.{Safe, on_http_request-Safe}

step_new : (c d : ClientState) → Step c d → c ≡ cs_new → (d ≡ cs_new) ⊎ (d ≡ cs_connected)
step_new c d stay h = inl h
step_new c d open_session h = inr refl
step_new c d close_session h = cc

step_on :
    (c d : ClientState)
    → Step c d
    → (c ≡ cs_connected) ⊎ (c ≡ cs_disconnecting)
    → (d ≡ cs_connected) ⊎ (d ≡ cs_disconnecting)
step_on c d stay h = h
step_on c d open_session h = inl refl
step_on c d close_session h = inr refl

module _ {J : Json} where
  -- The constructor; `memory` is what the other members hold. The log starts here.
  abbrev pub new_app_srv_session : Session J → Session J
  new_app_srv_session memory = record memory {
    client_state = cs_new;
    app_id = [];
    receive_time = [];
    connect_time = [];
    log = [];
  }

  -- A session that is new and has pushed nothing, or one that has been connected.
  abbrev pub IsAlive : Session J → Type 0
  IsAlive s =
      ((s.client_state ≡ cs_new) × (pushes s.log ≡ []))
      ⊎ ((s.client_state ≡ cs_connected) ⊎ (s.client_state ≡ cs_disconnecting))

  step-IsAlive : (s s' : Session J) → Safe s s' → IsAlive s → IsAlive s'
  step-IsAlive s s' (step, quiet) (inr h) = inr (step_on s.client_state s'.client_state step h)
  step-IsAlive s s' (step, inl e) (inl (new, none_)) = let bad : false ≡ true = rw new at e in cc
  step-IsAlive s s' (step, inr quiet) (inl (new, none_)) =
      elim (step_new s.client_state s'.client_state step new) [
        | inl still ↦ inl (still, quiet ∙ none_)
        | inr on ↦ inr (inl on)
      ]

  serve-IsAlive :
      (redis : Redis) (rs : List (Bytes × Request J × Bytes)) (s : Session J)
      → IsAlive s
      → Ends IsAlive (serve J redis rs s)
  unfolding serve
  serve-IsAlive redis [] s h = h
  serve-IsAlive redis ((now, r, content) ∷ rs) s h =
      Ends-bind (Safe (record s { now = now })) IsAlive
        (on_http_request J redis r content (record s { now = now })) _
        (on_http_request-Safe redis r content (record s { now = now }))
        (λ s' q. serve-IsAlive redis rs s' (step-IsAlive (record s { now = now }) s' q h))

  -- From its construction on, over any requests, whatever they hold and whenever they arrive, as
  -- long as no exception and no overrun ends the run: a provider's session is new and has pushed
  -- nothing, or it is connected, or disconnecting.
  pub serve-new_app_srv_session :
      (redis : Redis) (rs : List (Bytes × Request J × Bytes)) (memory : Session J)
      → Ends IsAlive (serve J redis rs (new_app_srv_session memory))
  unfolding pushes
  serve-new_app_srv_session redis rs memory =
      serve-IsAlive redis rs (new_app_srv_session memory) (inl (refl, refl))
