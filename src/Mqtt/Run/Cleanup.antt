-- ===== src/Mqtt/Run/Cleanup.antt =====
-- `MqttServer::CleanupRequest` of MqttServer.cpp, at the end of `Run`.
use pushserver.Prelude.{◌≡◌, refl, List, [], ◌∷◌, ◌++◌, Result, ok, stuck, All}
use pushserver.Mqtt.Run.{ZqError, no_error, request_arrived, too_big, again, other}

-- The loop over the answers of `Read`, of which those that are left come back; `stuck` means that
-- it goes on behind them. What was read is dropped.
unfoldable pub drop_request : List ZqError → Result (List ZqError)
drop_request [] = stuck
drop_request (no_error ∷ more) = drop_request more
drop_request (request_arrived ∷ more) = ok more
drop_request (too_big ∷ more) = ok more
drop_request (again ∷ more) = ok more
drop_request (other ∷ more) = ok more

-- The loop ends when nothing is left to be read, or when the client is gone.
pub drop_request-append :
    (read more : List ZqError)
    → All (λ e. e ≡ no_error) read
    → (drop_request (read ++ again ∷ more) ≡ ok more)
      × (drop_request (read ++ other ∷ more) ≡ ok more)
unfolding drop_request
drop_request-append [] more h = (refl, refl)
drop_request-append (e ∷ read) more h = rw (h.0) (drop_request-append read more h.1)
