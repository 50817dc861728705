-- ===== src/Redis.antt =====
-- ApsRedisLocation.cpp and ApsTokenRedisLocation.cpp: which devices a user has, and which device
-- tokens Apple has reported as invalid. The pointers passed in are never NULL.
pub mod Split
pub mod Valid
use pushserver.Prelude.{
  ℕ, ◌+◌, List, [], ◌∷◌, ◌++◌, Bool, true, false, ◌||◌, not, Option, none, some, Bytes, codes,
  c_str, length, ltb, ◌==◌, if◌then◌else◌, Result, ok, overrun, stuck, thrown, ◌>>=◌,
}
use pushserver.Prelude.Dict.{Dict, put}

-- The RedisClient library (not part of the repository), as it answers while one request runs.
pub record Redis : Type 0 where
  pub is_connected : Bool
  pub connect : Bool
  -- `GetData(key, field, RDS_HASH, message)`.
  pub hash_field : Bytes → Bytes → Option Bytes
  -- `GetData(key, type, result)`: the second column of the rows.
  pub hash_values : Bytes → Option (List Bytes)
  -- `GetData(key, value, "set", result)`.
  pub is_member : Bytes → Bytes → Bool

abbrev pub ready : Redis → Bool
ready redis = redis.is_connected || redis.connect

-- `sprintf` of one C string between two constants into `char sdName[256]`.
abbrev pub sd_name : Bytes → Bytes → Bytes → Result Bytes
sd_name before name after =
    let text = before ++ (c_str name ++ after) in if ltb (length text) 256 then ok text else overrun

-- What stands before the first `&`, and what stands behind it. With no `&`, `find` is `npos`: the
-- token is the whole text, and so is the type, since `npos + 1` is 0.
unfoldable pub before_mark : Bytes → Bytes
before_mark [] = []
before_mark (b ∷ bs) = if b == 38 then [] else b ∷ before_mark bs

unfoldable pub behind_mark : Bytes → Option Bytes
behind_mark [] = none
behind_mark (b ∷ bs) = if b == 38 then some bs else behind_mark bs

-- One entry `token&type` of the database.
unfoldable pub split_location : Bytes → Bytes × Bytes
unfolding before_mark behind_mark
split_location message =
    (before_mark message, elim (behind_mark message) [ none ↦ message | some type ↦ type ])

abbrev pub add_location : Bytes → Dict Bytes → Dict Bytes
unfolding split_location put
add_location message m = put (split_location message).0 (split_location message).1 m

unfoldable pub get_device_token : Redis → Bytes → Bytes → Dict Bytes → Result (Dict Bytes × Bool)
get_device_token redis user_id device_id m = if not (ready redis) then ok (m, false) else do
  name ← sd_name (codes "Account:") user_id []
  elim (redis.hash_field name (c_str device_id)) [
    | none ↦ ok (m, false)
    | some message ↦ ok (add_location message m, true)
  ]

unfoldable pub add_locations : List Bytes → Dict Bytes × Bool → Dict Bytes × Bool
add_locations [] done = done
add_locations (message ∷ messages) (m, ret) = add_locations messages (add_location message m, true)

unfoldable pub get_user_token : Redis → Bytes → Dict Bytes → Result (Dict Bytes × Bool)
unfolding add_locations
get_user_token redis user_id m = if not (ready redis) then ok (m, false) else do
  name ← sd_name (codes "Account:") user_id []
  elim (redis.hash_values name) [
    | none ↦ ok (m, false)
    | some messages ↦ ok (add_locations messages (m, false))
  ]

-- A token is valid where the set of the invalid ones does not have it.
unfoldable pub is_valid_device_token : Redis → Bytes → Bytes → Result Bool
is_valid_device_token redis device_id type = if not (ready redis) then ok false else do
  name ← sd_name (codes "Account:") type (codes ":invalid")
  ok (not (redis.is_member name (c_str device_id)))

-- `SetValidDeviceToken`: `SetData(key, value, "set", …)` writes, and `stores` is whether it succeeds.
-- What it writes is handed back with the result; the key is that of the invalid tokens.
unfoldable pub set_valid_device_token :
    Redis → Bool → Bytes → Bytes → Result (Bool × List (Bytes × Bytes))
set_valid_device_token redis stores device_id type =
    if not (ready redis) then ok (false, []) else do
      name ← sd_name (codes "Account:") type (codes ":invalid")
      ok (stores, if stores then (name, c_str device_id) ∷ [] else [])
