-- ===== src/Tests/Database.antt =====
-- Tests of the queries to the database: ApsLcs.cpp.
use pushserver.Prelude.{
  Ends, false, ◌≡◌, refl, [], ◌∷◌, true, none, some, codes, arith, ◌==◌, if◌then◌else◌, ok, inl,
  Bytes,
}
use pushserver.App.Request.{Request}
use pushserver.App.Request.{parse_request_message}
use pushserver.App.Session.{Session, cs_connected, on_http_request}
use pushserver.App.Session.Audit.{Audited, on_http_request-Audited}
use pushserver.App.Session.Audit.Closed.{IsClosed, on_http_request-IsClosed}
use pushserver.Tests.Data.{redis}
use pushserver.Records.Documents.{Clock, written}
use pushserver.Records.Documents.Queries.{Driver}
use pushserver.Records.Documents.Members.{Selects}
use pushserver.Records.Documents.Selection.{Added, Updated, add_message-update_message}
use pushserver.Tests.Tree.{Tree, flag, tree, get_tree, find_member, IsObject, tree_laws, app_root}
use pushserver.Records.Results.{Wrapper, process_query_result}
use pushserver.Records.Results.Drain.{IsWithout, process_query_result-drained}
use pushserver.Records.{Query, Lcs}
use pushserver.Records.Life.{
  Life, new_lcs, start_lcs, requested, wake, Reaches, here, starts, requests, asked, wake-asked,
}
use pushserver.Records.Order.{onto}

abbrev add : Query
add = record {
  type = codes "Add";
  collection = codes "c";
  query = [];
  update = codes "{}";
  wrapper = 0;
}

abbrev find : Query
find = record {
  type = codes "Find";
  collection = codes "c";
  query = codes "{}";
  update = [];
  wrapper = 9;
}

abbrev lcs : Lcs
lcs = record {
  started = true;
  pool = 4 ∷ 5 ∷ [];
  heap = λ a. if a == 4 then some add else (if a == 5 then some find else none);
  ops = [];
}

-- The task is started, and two queries are requested.
busy : Reaches (add ∷ find ∷ []) (requested 5 find (requested 4 add (start_lcs new_lcs)))
unfolding requested start_lcs
busy = requests 5 find (requests 4 add (starts here) refl) refl

wake-asked_example :
    (u : Life) × (wake 2 (requested 5 find (requested 4 add (start_lcs new_lcs))) ≡ ok (u, false))
    × (u.lcs.pool ≡ [])
    × (u.lcs.ops ≡ onto (asked (add ∷ find ∷ [])) [])
unfolding requested start_lcs
wake-asked_example =
    wake-asked (add ∷ find ∷ []) (requested 5 find (requested 4 add (start_lcs new_lcs))) 2 busy
      refl refl refl (omega arith)

-- A ping of a provider at noon, and its record.
abbrev ping : Request tree
ping = record {
  root = app_root;
  command = codes "pingreq";
  app_id = [];
  clean_flag = true;
  keepalive = 60;
  mid = 1;
  qos = 0;
  remain_flag = false;
  time_on_live = 0;
  user_id = [];
  device_id = [];
  android = app_root;
  ios = app_root;
}

abbrev noon : Clock
noon = record { now = codes "noon"; milliseconds = 1234 }

-- A driver that takes every text.
abbrev driver : Driver
driver = record { from_json = λ s. some s }

add_message-update_message_example :
    (receive find up : Tree) × (p q : Bytes) × Added tree driver noon ping (codes "app") 6 9 lcs p
    × (driver.from_json (written tree receive) ≡ some p)
    × Updated tree driver noon ping (codes "app") noon 7 (codes "OK") 9 lcs up q
    × (driver.from_json (written tree find) ≡ some q)
    × Selects tree find receive
    × (get_tree find (codes "flag") ≡ some (flag false))
    × (get_tree up (codes "flag") ≡ some (flag true))
add_message-update_message_example =
    add_message-update_message tree IsObject tree_laws noon ping (codes "app") (inl refl) tt driver
      (λ v h. (_, refl)) (omega arith) noon 6 7 9 (codes "OK") lcs lcs

-- Two results before a NULL, with one behind it.
abbrev wrapper : Wrapper
wrapper = record {
  results = 1 ∷ 2 ∷ 0 ∷ 3 ∷ [];
  heap = λ a. if a == 0 then none else some (codes "Find");
  signals = 4;
}

process_query_result-drained_example :
    (w' : Wrapper) × (process_query_result 3 wrapper ≡ ok w')
    × (w'.results ≡ 0 ∷ 3 ∷ [])
    × (w'.signals ≡ 4)
    × IsWithout (1 ∷ 2 ∷ []) wrapper.heap w'.heap
process_query_result-drained_example =
    process_query_result-drained 3 (1 ∷ 2 ∷ []) (0 ∷ 3 ∷ []) wrapper refl
      ((_, refl), ((omega arith), tt), ((_, refl), tt, tt)) tt (omega arith)

abbrev session : Session tree
session = record {
  client_state = cs_connected;
  app_id = codes "app";
  clean_session = true;
  keepalive = 60;
  receive_time = codes "morning";
  connect_time = codes "morning";
  message_id = 0;
  now = codes "noon";
  log = [];
}

ping_parsed : parse_request_message tree (codes "pingreq") ping ≡ ok (ping, true)
unfolding parse_request_message get_tree find_member
ping_parsed = refl

on_http_request-Audited_example :
    Ends (Audited ping true session) (on_http_request tree redis ping (codes "pingreq") session)
on_http_request-Audited_example =
    on_http_request-Audited redis ping ping (codes "pingreq") true session ping_parsed

on_http_request-IsClosed_example :
    Ends (IsClosed ping 1234 session) (on_http_request tree redis ping (codes "pingreq") session)
on_http_request-IsClosed_example =
    on_http_request-IsClosed IsObject tree_laws redis ping ping (codes "pingreq") 1234 session
      ping_parsed tt (inl refl)
