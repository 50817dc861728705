-- ===== src/App/Session/Handlers.antt =====
-- What the parts of a handler keep, for any relation of the session before and behind that a push
-- has: the answers and `OnPublish` of ApsAppServerSession.cpp.
use pushserver.Prelude.{
  [], ◌∷◌, true, false, Bytes, if◌then◌else◌, ok, ◌>>=◌, Ends, Ends-bind, Ends-any, Ends-map,
  ok-bind,
}
use pushserver.Prelude.Dict.{Dict}
use pushserver.Json.{Json}
use pushserver.Redis.{Redis, is_valid_device_token, get_user_token, get_device_token}
use pushserver.App.Request.{Request}
use pushserver.App.Response.{Response, get_response_message}
use pushserver.App.Session.{
  Session, Status, respond, answer, push, publish_to, publish_all, publish_first, publish, emit,
}

module _ {J : Json} where
  -- An answer, and what is written on it.
  pub answer_then :
      (P : Session J → Type 0) (status : Status) (r : Response) (s : Session J)
      (g : Session J → Session J)
      → ((text : Bytes) → P (g (emit J (respond status text) s)))
      → Ends P (answer J status r s >>= λ s'. ok (g s'))
  unfolding answer
  answer_then P status r s g h =
      rw
        (ok-bind (get_response_message J r) (λ text. emit J (respond status text) s)
          (λ s'. ok (g s')))
        (Ends-map P (get_response_message J r) _ h)

module _ {J : Json} (R : Session J → Session J → Type 0) (R-refl : (s : Session J) → R s s)
    (R-trans : (s t u : Session J) → R s t → R t u → R s u) (request : Request J)
    (R-push : (token type : Bytes) (s : Session J) → R s (push J request token type s)) where
  pub publish_to-keeps :
      (redis : Redis) (token type : Bytes) (s : Session J)
      → Ends (R s) (publish_to J redis request token type s)
  unfolding publish_to
  publish_to-keeps redis token type s =
      Ends-map (R s) (is_valid_device_token redis token type) _ (λ valid.
        elim valid as (λ v. R s (if v then push J request token type s else s)) [
          | true ↦ R-push token type s
          | false ↦ R-refl s
        ])

  pub publish_all-keeps :
      (redis : Redis) (m : Dict Bytes) (s : Session J)
      → Ends (λ done. R s done.0) (publish_all J redis request m s)
  unfolding publish_all
  publish_all-keeps redis [] s = R-refl s
  publish_all-keeps redis (([], type) ∷ m) s = publish_all-keeps redis m s
  publish_all-keeps redis ((b ∷ bs, type) ∷ m) s =
      Ends-bind (R s) _ (publish_to J redis request (b ∷ bs) type s) _
        (publish_to-keeps redis (b ∷ bs) type s)
        (λ s' q.
          Ends-bind (λ done. R s' done.0) _ (publish_all J redis request m s') _
            (publish_all-keeps redis m s') (λ done q'. R-trans s s' done.0 q q'))

  publish_first-keeps :
      (redis : Redis) (m : Dict Bytes) (s : Session J)
      → Ends (λ done. R s done.0) (publish_first J redis request m s)
  publish_first-keeps redis [] s = tt
  publish_first-keeps redis (([], type) ∷ m) s = R-refl s
  publish_first-keeps redis ((b ∷ bs, type) ∷ m) s =
      Ends-bind (R s) _ (publish_to J redis request (b ∷ bs) type s) _
        (publish_to-keeps redis (b ∷ bs) type s) (λ s' q. q)

  pub publish-keeps :
      (redis : Redis) (device_id : Bytes) (s : Session J)
      → Ends (λ done. R s done.0) (publish J redis request device_id s)
  unfolding publish
  publish-keeps redis [] s =
      Ends-bind (λ found. Unit) _ (get_user_token redis request.user_id []) _
        (Ends-any (λ found. Unit) _ (λ found. tt)) (λ found h. publish_all-keeps redis found.0 s)
  publish-keeps redis (b ∷ bs) s =
      Ends-bind (λ found. Unit) _ (get_device_token redis request.user_id (b ∷ bs) []) _
        (Ends-any (λ found. Unit) _ (λ found. tt)) (λ found h. publish_first-keeps redis found.0 s)
