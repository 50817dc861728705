-- ===== src/Records/Documents/Queries.antt =====
-- ApsStatusSave.cpp: the queries that write the documents, which the task of ApsLcs.cpp performs. An
-- address is that of the new query object.
use pushserver.Prelude.{
  ℕ, ◌+◌, ◌/◌, ◌%◌, [], ◌∷◌, ◌++◌, Option, some, Bytes, codes, c_str, take, ◌==◌, if◌then◌else◌,
  Result, ok, ◌>>=◌, or_throw,
}
use pushserver.Json.{Json}
use pushserver.App.Request.{Request}
use pushserver.Records.{Query, Lcs, request_query}
use pushserver.Records.Documents.{
  Clock, assign, text_value, written, set_text, string_member, message_document, message_selection,
  message_update, connect_document, connect_selection, connect_update, publish_document,
}

-- The MongoDB driver (not part of the repository): `mongo::fromjson`, which also reads the text of a
-- `mongo::Query`; `none` is its exception on a text that is no document.
pub record Driver : Type 0 where
  pub from_json : Bytes → Option Bytes

-- `snprintf` of a decimal number.
unfoldable pub decimal : ℕ → ℕ → Bytes → Bytes
decimal ℕ.zero n digits = digits
decimal (ℕ.suc fuel) n digits =
    let digits' = (n % 10 + 48) ∷ digits in
    let rest = decimal fuel (n / 10) digits' in if n / 10 == 0 then digits' else rest

-- `new ApsLcsQuery(type, wrapper)` at an address, with what is set in it, and `RequestQuery`.
unfoldable pub request : ℕ → Query → Lcs → Lcs
unfolding request_query
request a q l = request_query a (record l { heap = λ b. if a == b then some q else l.heap b })

module _ (J : Json) (D : Driver) where
  -- An "Add" of a document, and an "Update" of what a selection finds.
  abbrev pub add_query : Bytes → Bytes → ℕ → Query
  add_query collection document wrapper = record {
    type = codes "Add";
    collection = collection;
    query = [];
    update = document;
    wrapper = wrapper;
  }

  abbrev pub update_query : Bytes → Bytes → Bytes → ℕ → Query
  update_query collection selection change wrapper = record {
    type = codes "Update";
    collection = collection;
    query = selection;
    update = change;
    wrapper = wrapper;
  }

  -- `fromjson` of the document, and the query to add it.
  abbrev pub request_add : ℕ → Bytes → J.Value → ℕ → Lcs → Result Lcs
  request_add a collection v wrapper l = do
    p ← or_throw (D.from_json (written J v))
    ok (request a (add_query collection p wrapper) l)

  abbrev pub request_update : ℕ → Bytes → J.Value → J.Value → ℕ → Lcs → Result Lcs
  request_update a collection selection change wrapper l = do
    q ← or_throw (D.from_json (written J selection))
    u ← or_throw (D.from_json (set_text J change))
    ok (request a (update_query collection q u wrapper) l)

  -- The time of the receipt is returned.
  unfoldable pub add_message : Clock → ℕ → Request J → Bytes → ℕ → Lcs → Result (Lcs × Bytes)
  unfolding message_document
  add_message clock a request app_id wrapper l = do
    receive ← message_document J clock request app_id
    l' ← request_add a (codes "provider.message") receive wrapper l
    received ← string_member J receive (codes "receive_time")
    ok (l', received)

  unfoldable pub update_message : Clock → ℕ → Bytes → Bytes → Bytes → ℕ → Lcs → Result Lcs
  unfolding message_selection message_update
  update_message clock a received app_id status wrapper l = do
    find ← message_selection J received app_id
    up ← message_update J clock status
    request_update a (codes "provider.message") find up wrapper l

  unfoldable pub add_error_message : ℕ → Request J → Bytes → ℕ → Lcs → Result Lcs
  unfolding assign
  add_error_message a request status wrapper l = do
    receive ← assign J ((codes "error", text_value J status) ∷ []) request.root
    request_add a (codes "provider.error") receive wrapper l

  -- The time of the connection is returned.
  unfoldable pub add_connect_message : Clock → ℕ → Request J → ℕ → Lcs → Result (Lcs × Bytes)
  unfolding connect_document
  add_connect_message clock a request wrapper l = do
    receive ← connect_document J clock request
    l' ← request_add a (codes "provider.connect") receive wrapper l
    started ← string_member J receive (codes "start_time")
    ok (l', started)

  unfoldable pub update_connect_status : Clock → ℕ → Bytes → Bytes → Bytes → ℕ → Lcs → Result Lcs
  unfolding connect_selection connect_update
  update_connect_status clock a started app_id status wrapper l = do
    find ← connect_selection J started app_id
    up ← connect_update J clock status
    request_update a (codes "provider.connect") find up wrapper l

  unfoldable pub add_publish_message :
      Clock → ℕ → Request J → Bytes → ℕ → ℕ → Lcs → Result (Lcs × Bytes)
  unfolding publish_document
  add_publish_message clock a request token mid wrapper l = do
    ios ← publish_document J clock request token mid
    l' ← request_add a (codes "provider.ios") ios wrapper l
    received ← string_member J ios (codes "receive_time")
    ok (l', received)

  -- The text of the search, cut to 2047 bytes.
  abbrev pub publish_selection : Bytes → ℕ → Bytes
  unfolding decimal
  publish_selection [] mid = codes "{msgid:{$gte:" ++ (decimal 5 mid [] ++ codes "}}")
  publish_selection (b ∷ bs) mid = take 2047 (
      codes "{msgid:{$gte:"
      ++ (decimal 5 mid [] ++ (codes "},startTime:" ++ (c_str (b ∷ bs) ++ codes "}"))))

  -- `mid` is a `uint16_t`.
  unfoldable pub find_publish_message : Bytes → ℕ → ℕ → ℕ → Lcs → Result Lcs
  unfolding request decimal
  find_publish_message start_time mid a wrapper l = do
    q ← or_throw (D.from_json (publish_selection start_time mid))
    ok (
        request a
          (record {
            type = codes "Find";
            collection = codes "provider.ios";
            query = q;
            update = [];
            wrapper = wrapper;
          })
          l)
