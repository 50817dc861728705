-- ===== src/Redis/Valid.antt =====
-- `SetValidDeviceToken` against `IsValidDeviceToken`: ApsTokenRedisLocation.cpp.
use pushserver.Prelude.{
  ◌<◌, ◌≡◌, ap, ◌∙◌, List, [], ◌∷◌, ◌++◌, true, false, not, Bytes, codes, c_str, length, lt→ltb, ok,
  bind_known, take_then, take_else,
}
use pushserver.Redis.{Redis, ready, sd_name, is_valid_device_token, set_valid_device_token}

-- The set of the invalid tokens of a type.
abbrev pub invalid_name : Bytes → Bytes
invalid_name type = codes "Account:" ++ (c_str type ++ codes ":invalid")

-- The writes have reached the database.
abbrev pub Has : Redis → List (Bytes × Bytes) → Type 0
Has redis [] = Unit
Has redis ((name, value) ∷ writes) = (redis.is_member name value ≡ true) × Has redis writes

sd_name-invalid :
    (type : Bytes)
    → length (invalid_name type) < 256
    → sd_name (codes "Account:") type (codes ":invalid") ≡ ok (invalid_name type)
sd_name-invalid type short = take_then _ _ (lt→ltb _ 256 short)

-- For a type whose set's name has less than 256 characters, marking a token as valid writes it into
-- the set of the invalid tokens of this type; a database that can be reached and has what was
-- written then says of the token that it is not valid.
pub set_valid_device_token-is_valid_device_token :
    (redis redis' : Redis) (device_id type : Bytes)
    → length (invalid_name type) < 256
    → ready redis ≡ true
    → ready redis' ≡ true
    → Has redis' ((invalid_name type, c_str device_id) ∷ [])
    → (set_valid_device_token redis true device_id type
        ≡ ok (true, (invalid_name type, c_str device_id) ∷ []))
      × (is_valid_device_token redis' device_id type ≡ ok false)
unfolding set_valid_device_token is_valid_device_token
set_valid_device_token-is_valid_device_token redis redis' device_id type short up up' has = (
  take_else _ _ (ap not up) ∙ bind_known _ (sd_name-invalid type short),
  take_else _ _ (ap not up')
      ∙ bind_known _ (sd_name-invalid type short)
      ∙ ap (λ b. ok (not b)) (has.0),
)
