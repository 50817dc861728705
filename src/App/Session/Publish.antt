-- ===== src/App/Session/Publish.antt =====
-- To which devices a publish request goes: `OnPublish` of ApsAppServerSession.cpp.
use pushserver.Prelude.{
  ℕ, ◌<◌, ◌≡◌, refl, ap, ◌∙◌, List, [], ◌∷◌, ◌++◌, Bool, true, false, not, ◌&&◌, none, Bytes, codes,
  c_str, strcmp_eq, if◌then◌else◌, ok, overrun, All, arith, length, lt→ltb, length-append,
  Bool-cases, inl, inr, bind_known,
}
use pushserver.Prelude.Dict.{Dict}
use pushserver.Json.{Json}
use pushserver.Redis.{Redis, ready, is_valid_device_token, get_device_token}
use pushserver.App.Request.{Request}
use pushserver.App.Session.{
  Session, push, publish_to, publish_all, publish, on_publish, is_connected,
}
use pushserver.App.Session.States.{pushes}

-- The name of the set of a type's invalid tokens.
abbrev pub invalid_set : Bytes → Bytes
invalid_set type = codes "Account:" ++ (c_str type ++ codes ":invalid")

-- Whether a device is pushed to: its token is not known to be invalid.
abbrev pub is_target : Redis → Bytes → Bytes → Bool
is_target redis token type = ready redis && not (redis.is_member (invalid_set type) (c_str token))

-- The pushes to a user's devices, in the order of their tokens, before the older ones.
unfoldable pub targets : Redis → Dict Bytes → List (Bool × Bytes) → List (Bool × Bytes)
targets redis [] log = log
targets redis (([], type) ∷ m) log = targets redis m log
targets redis ((b ∷ bs, type) ∷ m) log = targets redis m (
    if is_target redis (b ∷ bs) type
    then (strcmp_eq type (codes "ios"), c_str (b ∷ bs)) ∷ log
    else log)

unfoldable pub has_token : Dict Bytes → Bool
has_token [] = false
has_token (([], type) ∷ m) = has_token m
has_token ((b ∷ bs, type) ∷ m) = true

-- The type's name fits in the buffer of the set's name.
abbrev pub IsShort : Bytes × Bytes → Type 0
IsShort (token, type) = length (c_str type) < 240

valid_target :
    (redis : Redis) (token type : Bytes)
    → length (c_str type) < 240
    → is_valid_device_token redis token type ≡ ok (is_target redis token type)
unfolding is_valid_device_token
valid_target redis token type h = elim (Bool-cases (ready redis)) [
  | inl e ↦ rw (
    e,
    lt→ltb (length (invalid_set type)) 256
        (omega (arith, h, length-append (c_str type) (codes ":invalid"))),
  )
  | inr e ↦ rw e
]

module _ {J : Json} where
  pushes-push :
      (request : Request J) (token type : Bytes) (s : Session J)
      → pushes (push J request token type s).log
        ≡ (strcmp_eq type (codes "ios"), c_str token) ∷ pushes s.log
  unfolding pushes
  pushes-push request token type s = elim (Bool-cases (strcmp_eq type (codes "ios"))) [
    | inl e ↦ rw e refl
    | inr e ↦ rw e refl
  ]

  -- The session after one device.
  abbrev pub pushed : Redis → Request J → Bytes → Bytes → Session J → Session J
  pushed redis request token type s =
      if is_target redis token type then push J request token type s else s

  pub publish_to-pushed :
      (redis : Redis) (request : Request J) (token type : Bytes) (s : Session J)
      → length (c_str type) < 240
      → publish_to J redis request token type s ≡ ok (pushed redis request token type s)
  unfolding publish_to
  publish_to-pushed redis request token type s h = bind_known _ (valid_target redis token type h)

  pushes-pushed :
      (redis : Redis) (request : Request J) (token type : Bytes) (s : Session J)
      → pushes (pushed redis request token type s).log ≡ (
          if is_target redis token type
          then (strcmp_eq type (codes "ios"), c_str token) ∷ pushes s.log
          else pushes s.log)
  pushes-pushed redis request token type s = elim (Bool-cases (is_target redis token type)) [
    | inl e ↦ rw e (pushes-push request token type s)
    | inr e ↦ rw e refl
  ]

  -- Publishing to a map of devices whose types have less than 240 characters always returns. It
  -- pushes to each device whose token is not empty and not known to be invalid, once, in the order
  -- of the tokens and on the platform of its type. What it says, and so whether the provider is
  -- told of a success, is only whether there is a token that is not empty, be it valid or not.
  pub publish_all-targets :
      (redis : Redis) (request : Request J) (m : Dict Bytes) (s : Session J)
      → All IsShort m
      → (s' : Session J) × (publish_all J redis request m s ≡ ok (s', has_token m))
        × (pushes s'.log ≡ targets redis m (pushes s.log))
  unfolding publish_all has_token targets
  publish_all-targets redis request [] s h = (s, refl, refl)
  publish_all-targets redis request (([], type) ∷ m) s h = publish_all-targets redis request m s h.1
  publish_all-targets redis request ((b ∷ bs, type) ∷ m) s h =
      let (s', e, p) =
        publish_all-targets redis request m (pushed redis request (b ∷ bs) type s) h.1 in
      (
        s',
        bind_known _ (publish_to-pushed redis request (b ∷ bs) type s h.0) ∙ bind_known _ e,
        p ∙ ap (targets redis m) (pushes-pushed redis request (b ∷ bs) type s),
      )

  -- A publish request for one device, in a connected session and while the database can be reached
  -- and has no such device, with a user name of less than 248 characters, reads the first element
  -- of an empty map.
  pub on_publish-overrun :
      (redis : Redis) (request : Request J) (s : Session J) (b : ℕ) (bs : Bytes)
      → is_connected s.client_state ≡ true
      → request.device_id ≡ b ∷ bs
      → ready redis ≡ true
      → length (c_str request.user_id) < 248
      → redis.hash_field (codes "Account:" ++ (c_str request.user_id ++ [])) (c_str (b ∷ bs)) ≡ none
      → on_publish J redis request s ≡ overrun
  unfolding on_publish publish get_device_token
  on_publish-overrun redis request s b bs open_ device up short missing = rw (
    open_,
    device,
    up,
    lt→ltb (length (codes "Account:" ++ (c_str request.user_id ++ []))) 256
        (omega (arith, short, length-append (c_str request.user_id) [])),
    missing,
  )
