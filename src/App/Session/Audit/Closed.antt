-- ===== src/App/Session/Audit/Closed.antt =====
-- The update behind a request finds the record of the request: ApsAppServerSession.cpp with
-- ApsStatusSave.cpp.
use pushserver.Prelude.{
  ℕ, ◌≡◌, refl, ap, ◌∙◌, sym, ◌∷◌, true, Bytes, codes, c_str, strcmp_eq, ok, Ends, Ends-weaken,
  Bool-cases, inl, inr,
}
use pushserver.Json.{Json}
use pushserver.Redis.{Redis}
use pushserver.App.Request.{Request, parse_request_message}
use pushserver.App.Session.{Session, on_http_request}
use pushserver.App.Session.Audit.{
  recorded, dealt, audit, app_id_after, Audited, on_http_request-Audited,
}
use pushserver.Records.Documents.{Clock, text_value, message_document, message_selection}
use pushserver.Records.Documents.Members.{HasMembers, HasAppId, Selects}
use pushserver.Records.Documents.Selection.{message_selected}

module _ {J : Json} where
  -- The clock at the arrival of a request.
  abbrev pub clock_at : Session J → ℕ → Clock
  clock_at s milliseconds = record { now = s.now; milliseconds = milliseconds }

  -- The two entries that a request leaves, and that the selection of the second finds the record of
  -- the first.
  abbrev pub IsClosed : Request J → ℕ → Session J → Session J → Type 0
  IsClosed request ms s s' =
      (receive find : J.Value) × (audit s'.log
        ≡ dealt s.now s'.app_id ∷ recorded request s.app_id ∷ audit s.log)
      × (message_document J (clock_at s ms) request s.app_id ≡ ok receive)
      × (message_selection J s.now s'.app_id ≡ ok find)
      × Selects J find receive

  message_document-app_id_after :
      (clock : Clock) (request : Request J) (s : Session J)
      → message_document J clock request s.app_id
        ≡ message_document J clock request (app_id_after request s)
  unfolding message_document
  message_document-app_id_after clock request s =
      elim (Bool-cases (strcmp_eq request.command (codes "connect"))) [
        | inl e ↦ rw e refl
        | inr e ↦ rw e refl
      ]

  module _ (IsObject : J.Value → Type 0) (laws : HasMembers J IsObject) where
    -- For a request whose message is a JSON object, and in which a connect has the application of
    -- the session behind it as its member: where the request is handled without an exception or an
    -- overrun, it leaves the record and its closing, and every member that the selection of the
    -- closing names is the one of the record that ApsStatusSave writes at the same time, so that it
    -- finds it.
    pub on_http_request-IsClosed :
        (redis : Redis) (r request : Request J) (content : Bytes) (ms : ℕ) (s : Session J)
        → parse_request_message J (c_str content) r ≡ ok (request, true)
        → IsObject request.root
        → HasAppId J IsObject laws
            (strcmp_eq request.command (codes "connect"))
            request.root
            (text_value J (app_id_after request s))
        → Ends (IsClosed request ms s) (on_http_request J redis r content s)
    on_http_request-IsClosed redis r request content ms s parsed object given =
        let (receive, find, made, made', object', object'', selects, received, open_flag) =
          message_selected J IsObject laws (clock_at s ms) request (app_id_after request s) given
            object in
        Ends-weaken (Audited request true s) (IsClosed request ms s)
          (on_http_request J redis r content s)
          (on_http_request-Audited redis r request content true s parsed)
          (λ s' (entries, app). (
            receive,
            find,
            entries ∙ ap (λ a. dealt s.now a ∷ recorded request s.app_id ∷ audit s.log) (sym app),
            message_document-app_id_after (clock_at s ms) request s ∙ made,
            ap (message_selection J s.now) app ∙ made',
            selects,
          ))
