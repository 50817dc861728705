-- ===== src/Records/Documents.antt =====
-- ApsStatusSave.cpp: the records of messages, errors, connections and pushes, as JSON documents. A
-- `Clock` is the text of the local time and the milliseconds.
pub mod Queries
pub mod Members
pub mod Selection
use pushserver.Prelude.{
  ℕ, ◌+◌, ◌/◌, ◌%◌, ◌<◌, List, [], ◌∷◌, ◌++◌, Bool, true, false, Option, none, some, Bytes, codes,
  c_str, strcmp_eq, take, ◌==◌, if◌then◌else◌, Result, ok, thrown, overrun, stuck, ◌>>=◌, or_throw,
}
use pushserver.Json.{Json}
use pushserver.App.Request.{Request}
use pushserver.Records.{Query, Lcs, request_query}

pub record Clock : Type 0 where
  pub now : Bytes
  pub milliseconds : ℕ

module _ (J : Json) where
  -- `v[name] = x`, one assignment after the other.
  unfoldable pub assign : List (Bytes × J.Value) → J.Value → Result J.Value
  assign [] v = ok v
  assign ((name, x) ∷ more) v = do w ← or_throw (J.set v name x); assign more w

  abbrev pub text_value : Bytes → J.Value
  text_value s = J.of_string (c_str s)

  -- `asctime`, and the milliseconds within the second.
  abbrev pub millisecond : Clock → J.Value
  millisecond clock = J.of_int (clock.milliseconds % 1000)

  -- `write_tmp->write(v).c_str()`.
  abbrev pub written : J.Value → Bytes
  written v = c_str (J.write v)

  -- `snprintf(cmd, sizeof(cmd), "{$set:%s}", …)` into 1024 bytes.
  abbrev pub set_text : J.Value → Bytes
  set_text v = take 1023 (codes "{$set:" ++ (written v ++ codes "}"))

  -- What `receive["…_time"].asString()` returns.
  abbrev pub string_member : J.Value → Bytes → Result Bytes
  string_member v name = do x ← or_throw (J.get v name); or_throw (J.as_string x)

  -- The record of a message; a connect names its application itself.
  abbrev pub message_members : Clock → Bool → Bytes → List (Bytes × J.Value)
  message_members clock connects app_id =
      (codes "receive_time", text_value clock.now)
      ∷ (codes "flag", J.of_bool false)
      ∷ (codes "receive_milsecond", millisecond clock)
      ∷ (if connects then [] else ((codes "appid", text_value app_id) ∷ []))

  unfoldable pub message_document : Clock → Request J → Bytes → Result J.Value
  unfolding assign
  message_document clock request app_id =
      assign (message_members clock (strcmp_eq request.command (codes "connect")) app_id)
        request.root

  abbrev pub open_message : Bytes → Bytes → List (Bytes × J.Value)
  open_message received app_id =
      (codes "appid", text_value app_id)
      ∷ (codes "receive_time", text_value received)
      ∷ (codes "flag", J.of_bool false)
      ∷ []

  unfoldable pub message_selection : Bytes → Bytes → Result J.Value
  unfolding assign
  message_selection received app_id = assign (open_message received app_id) J.null

  abbrev pub dealt_message : Clock → Bytes → List (Bytes × J.Value)
  dealt_message clock status =
      (codes "deal_time", text_value clock.now)
      ∷ (codes "deal_milsecond", millisecond clock)
      ∷ (codes "status", text_value status)
      ∷ (codes "flag", J.of_bool true)
      ∷ []

  unfoldable pub message_update : Clock → Bytes → Result J.Value
  unfolding assign
  message_update clock status = assign (dealt_message clock status) J.null

  unfoldable pub connect_document : Clock → Request J → Result J.Value
  unfolding assign
  connect_document clock request =
      assign
        ((codes "start_time", text_value clock.now)
          ∷ (codes "receive_milsecond", millisecond clock)
          ∷ (codes "status", J.of_bool true)
          ∷ [])
        request.root

  unfoldable pub connect_selection : Bytes → Bytes → Result J.Value
  unfolding assign
  connect_selection started app_id =
      assign
        ((codes "appid", text_value app_id)
          ∷ (codes "start_time", text_value started)
          ∷ (codes "status", J.of_bool true)
          ∷ [])
        J.null

  unfoldable pub connect_update : Clock → Bytes → Result J.Value
  unfolding assign
  connect_update clock status =
      assign
        ((codes "disconnect_time", text_value clock.now)
          ∷ (codes "deal_milsecond", millisecond clock)
          ∷ (codes "disconnet_message", text_value status)
          ∷ (codes "status", J.of_bool false)
          ∷ [])
        J.null

  unfoldable pub publish_document : Clock → Request J → Bytes → ℕ → Result J.Value
  unfolding assign
  publish_document clock request token mid =
      assign
        ((codes "deviceToken", J.of_string token)
          ∷ (codes "receive_time", text_value clock.now)
          ∷ (codes "receive_milsecond", millisecond clock)
          ∷ (codes "msgid", J.of_int mid)
          ∷ [])
        request.ios
