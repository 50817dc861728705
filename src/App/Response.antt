-- ===== src/App/Response.antt =====
-- ApsAppResponseMessage.cpp: the answer to a request, as JSON. The text that the source returns is
-- the one of a temporary string; the model is the string.
use pushserver.Prelude.{
  ℕ, List, [], ◌∷◌, Bool, false, none, some, Bytes, codes, strcmp_eq, get_elem?, ◌==◌,
  if◌then◌else◌, Result, ok, overrun, ◌>>=◌, or_throw,
}
use pushserver.Json.{Json}

pub record Response : Type 0 where
  pub command : Bytes
  pub success_flag : Bool
  pub mid : ℕ
  pub error_code : ℕ

abbrev pub new_response : Response
new_response = record { command = []; success_flag = false; mid = 0; error_code = 0 }

abbrev pub status_code_strings : List Bytes
status_code_strings =
    codes "success"
    ∷ codes "unacceptable protocol version"
    ∷ codes "identifier rejected"
    ∷ codes "server unavailable"
    ∷ codes "bad user name or password"
    ∷ codes "not authorized"
    ∷ codes "undefined command"
    ∷ codes "parse request message error"
    ∷ codes "receive publish while not connected"
    ∷ codes "receive pingreq while not connected"
    ∷ codes "receive connect while not initiate state"
    ∷ codes "receive disconnect while not connected"
    ∷ codes "publish with all deviceToken is NULL"
    ∷ []

-- `sStatusCodeStrings[code]`.
abbrev pub status_string : ℕ → Result Bytes
status_string code = elim (get_elem? status_code_strings code) [ none ↦ overrun | some s ↦ ok s ]

module _ (J : Json) where
  abbrev pub with_field : Bytes → J.Value → J.Value → Result J.Value
  with_field name x v = or_throw (J.set v name x)

  abbrev pub get_success : Response → Result J.Value
  get_success r = do
    v ← with_field (codes "name") (J.of_string r.command) J.null
    if strcmp_eq r.command (codes "connack")
        then with_field (codes "success") (J.of_bool r.success_flag) v
        else (if strcmp_eq r.command (codes "puback")
            then (with_field (codes "success") (J.of_bool r.success_flag) v
                >>= with_field (codes "msgid") (J.of_uint r.mid))
            else ok v)

  abbrev pub get_failure : Response → J.Value → Result J.Value
  get_failure r v = do
    v' ← with_field (codes "errno") (J.of_uint r.error_code) v
    text ← status_string r.error_code
    with_field (codes "message") (J.of_string text) v'

  unfoldable pub get_response_message : Response → Result Bytes
  get_response_message r = do
    v ←
        if r.error_code == 0
        then get_success r
        else (if r.error_code == 7
            then get_failure r J.null
            else (with_field (codes "name") (J.of_string r.command) J.null >>= get_failure r))
    ok (J.write v)
