-- ===== src/Mqtt/Registry.antt =====
-- MqttSessionHandler.h and MqttSessionHandler.cpp: the map from device tokens to the sessions of
-- connected devices. A session is the address of its `MqttServer`.
use pushserver.Prelude.{ℕ, ◌≡◌, Bool, Option, none, some, Bytes, arith, bytes_eq, if◌then◌else◌}
use pushserver.Prelude.Dict.{Dict, lookup, erase, insert, lookup-put, lookup-erase}

abbrev pub Registry : Type 0
Registry = Dict ℕ

unfoldable pub add_mqtt_session : Bytes → ℕ → Registry → Registry × Bool
unfolding insert
add_mqtt_session uuid session r = insert uuid session r

-- The number of erased entries comes back.
unfoldable pub delete_mqtt_session : Bytes → Registry → Registry × ℕ
delete_mqtt_session uuid r = (erase uuid r, elim (lookup uuid r) [ none ↦ 0 | some v ↦ 1 ])

-- `none` is the NULL pointer.
unfoldable pub find_mqtt_session : Bytes → Registry → Option ℕ
find_mqtt_session uuid r = lookup uuid r

-- Adding a token that is there changes nothing that can be found; a new token is found afterwards
-- with the session. No other token is affected.
pub find-add :
    (k j : Bytes) (session : ℕ) (r : Registry)
    → find_mqtt_session j (add_mqtt_session k session r).0 ≡ elim (find_mqtt_session k r) [
      | none ↦ if bytes_eq k j then some session else find_mqtt_session j r
      | some w ↦ find_mqtt_session j r
    ]
unfolding find_mqtt_session add_mqtt_session
find-add k j session r = ground (arith, lookup-put k j session r)

-- A deleted token is not found any more, and every other token is found as before.
pub find-delete :
    (k j : Bytes) (r : Registry)
    → find_mqtt_session j (delete_mqtt_session k r).0
      ≡ (if bytes_eq k j then none else find_mqtt_session j r)
unfolding find_mqtt_session delete_mqtt_session
find-delete k j r = lookup-erase k j r
