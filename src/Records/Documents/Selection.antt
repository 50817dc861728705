-- ===== src/Records/Documents/Selection.antt =====
-- Which records the selections of ApsStatusSave.cpp find.
use pushserver.Prelude.{
  ℕ, ◌≡◌, refl, sym, ap, ◌∙◌, true, false, some, Bytes, codes, c_str, strcmp_eq, ok, ◌>>=◌,
  or_throw, bind_known, c_str_id, IsCString,
}
use pushserver.Json.{Json}
use pushserver.App.Request.{Request}
use pushserver.Records.{Lcs}
use pushserver.Records.Documents.{
  Clock, text_value, written, set_text, message_members, message_document, open_message,
  message_selection, dealt_message, message_update,
}
use pushserver.Records.Documents.Queries.{
  Driver, request, add_query, update_query, add_message, update_message,
}
use pushserver.Records.Documents.Members.{
  HasMembers, HasAppId, Selects, member_after, Assigned, assign_members, other_member,
  app_id_member, three_names,
}

module _ (J : Json) (D : Driver) (clock : Clock) (r : Request J) (app_id : Bytes) where
  -- What adding a message asks for, and what its update asks for.
  abbrev pub Added : ℕ → ℕ → Lcs → Bytes → Type 0
  Added a wrapper l p =
      add_message J D clock a r app_id wrapper l
      ≡ ok (request a (add_query J D (codes "provider.message") p wrapper) l, clock.now)

  abbrev pub Updated : Clock → ℕ → Bytes → ℕ → Lcs → J.Value → Bytes → Type 0
  Updated later a status wrapper l up q =
      update_message J D later a clock.now app_id status wrapper l ≡ (
        or_throw (D.from_json (set_text J up)) >>= λ u.
        ok (request a (update_query J D (codes "provider.message") q u wrapper) l))

module _ (J : Json) (IsObject : J.Value → Type 0) (laws : HasMembers J IsObject) where
  module _ (clock : Clock) (r : Request J) (app_id : Bytes)
      (given : HasAppId J IsObject laws
        (strcmp_eq r.command (codes "connect"))
        r.root
        (text_value J app_id))
      (object : IsObject r.root) where
    -- The record of a message, and the selection of its time of receipt.
    pub message_selected :
        (receive find : J.Value) × (message_document J clock r app_id ≡ ok receive)
        × (message_selection J clock.now app_id ≡ ok find)
        × IsObject receive
        × IsObject find
        × Selects J find receive
        × (J.get receive (codes "receive_time") ≡ some (text_value J clock.now))
        × (J.get find (codes "flag") ≡ some (J.of_bool false))
    unfolding message_document message_selection Assigned
    message_selected =
        let b = strcmp_eq r.command (codes "connect") in
        let app = text_value J app_id in
        let (receive, made, object', has) =
          assign_members J IsObject laws (message_members J clock b app_id) r.root object in
        let (find, made', object'', has') =
          assign_members J IsObject laws (open_message J clock.now app_id) J.null
            laws.null_object in
        let plain = λ (j : Bytes).
          has' j ∙ ap (member_after J (open_message J clock.now app_id) j) (laws.get-null j) in
        let received =
          has (codes "receive_time")
          ∙ other_member J IsObject laws b app (codes "receive_time") _ refl in
        let open_flag =
          has (codes "flag") ∙ other_member J IsObject laws b app (codes "flag") _ refl in
        let app_is = has (codes "appid") ∙ app_id_member J IsObject laws b r.root app given in
        (
          receive,
          find,
          made,
          made',
          object',
          object'',
          three_names J IsObject laws find receive (codes "appid") (codes "receive_time")
              (codes "flag") (plain (codes "appid") ∙ sym app_is)
              (plain (codes "receive_time") ∙ sym received) (plain (codes "flag") ∙ sym open_flag)
              app (text_value J clock.now) (J.of_bool false) plain,
          received,
          plain (codes "flag"),
        )

    module _ (D : Driver)
        (reads : (v : J.Value) → IsObject v → (p : Bytes) × (D.from_json (written J v) ≡ some p))
        (asctime : IsCString clock.now) where
      -- For a request whose message is a JSON object, and in which a connect has the application's
      -- id as its member: adding the message asks for a record with the present time, which is
      -- returned, and the update of the message of this time and application asks for an update of
      -- what a selection finds. Every member of the selection is the record's; the selection wants
      -- the flag false, and the document of the update sets it to true. The texts that jsoncpp
      -- writes are taken to be read by the driver; the update's text is the one that was cut to
      -- 1023 bytes, and where the driver does not read it the call throws.
      pub add_message-update_message :
          (later : Clock) (a a' wrapper : ℕ) (status : Bytes) (l l' : Lcs)
          → (receive find up : J.Value) × (p q : Bytes) × Added J D clock r app_id a wrapper l p
            × (D.from_json (written J receive) ≡ some p)
            × Updated J D clock r app_id later a' status wrapper l' up q
            × (D.from_json (written J find) ≡ some q)
            × Selects J find receive
            × (J.get find (codes "flag") ≡ some (J.of_bool false))
            × (J.get up (codes "flag") ≡ some (J.of_bool true))
      unfolding add_message update_message message_update Assigned
      add_message-update_message later a a' wrapper status l l' =
          let (receive, find, made, made', object, object', selects, received, is_open) =
            message_selected in
          let (up, made'', object'', has) =
            assign_members J IsObject laws (dealt_message J later status) J.null laws.null_object in
          let (p, read) = reads receive object in
          let (q, read') = reads find object' in
          let now : c_str clock.now ≡ clock.now = c_str_id clock.now asctime in
          (
            receive,
            find,
            up,
            p,
            q,
            bind_known _ made
                ∙ bind_known _ (bind_known _ (ap or_throw read))
                ∙ bind_known _ (
                    bind_known _ (ap or_throw received)
                    ∙ ap or_throw (laws.text_back (c_str clock.now) ∙ ap some now)),
            read,
            bind_known _ made' ∙ bind_known _ made'' ∙ bind_known _ (ap or_throw read'),
            read',
            selects,
            is_open,
            has (codes "flag"),
          )
