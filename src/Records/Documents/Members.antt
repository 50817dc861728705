-- ===== src/Records/Documents/Members.antt =====
-- The members of a JSON value behind assignments, and what a selection of members finds.
use pushserver.Prelude.{
  ◌≡◌, ◌⊎◌, inl, inr, refl, sym, ap, ◌∙◌, List, [], ◌∷◌, Bool, true, false, Option, some, Bytes,
  codes, bytes_eq, bytes_eq_iff, if◌then◌else◌, ok, ◌>>=◌, or_throw, Bool-cases, take_else,
}
use pushserver.Json.{Json}
use pushserver.Records.Documents.{assign}

-- What is documented of jsoncpp: an object, or null, takes a member, which is then read back, and
-- the others stay; a null has only null members, and a string is its text.
pub record HasMembers (J : Json) (IsObject : J.Value → Type 0) : Type 0 where
  pub null_object : IsObject J.null
  pub get-null : (name : Bytes) → J.get J.null name ≡ some J.null
  pub set_object :
      (v : J.Value) (name : Bytes) (x : J.Value)
      → IsObject v
      → (w : J.Value) × (J.set v name x ≡ some w)
        × IsObject w
        × ((j : Bytes) → J.get w j ≡ (if bytes_eq name j then some x else J.get v j))
  pub text_back : (s : Bytes) → J.as_string (J.of_string s) ≡ some s

module _ (J : Json) where
  -- What a member is after the assignments.
  abbrev pub member_after : List (Bytes × J.Value) → Bytes → Option J.Value → Option J.Value
  member_after [] j o = o
  member_after ((name, x) ∷ more) j o = member_after more j (if bytes_eq name j then some x else o)

  -- Every member that the selection names is the record's.
  abbrev pub Selects : J.Value → J.Value → Type 0
  Selects find doc =
      (name : Bytes) → (J.get find name ≡ some J.null) ⊎ (J.get find name ≡ J.get doc name)

module _ (J : Json) (IsObject : J.Value → Type 0) (laws : HasMembers J IsObject) where
  -- The value that the assignments give, and its members.
  unfoldable pub Assigned : List (Bytes × J.Value) → J.Value → Type 0
  Assigned more v =
      (w : J.Value) × (assign J more v ≡ ok w)
      × IsObject w
      × ((j : Bytes) → J.get w j ≡ member_after J more j (J.get v j))

  pub assign_members : (more : List (Bytes × J.Value)) (v : J.Value) → IsObject v → Assigned more v
  unfolding assign Assigned
  assign_members [] v h = (v, refl, h, λ j. refl)
  assign_members ((name, x) ∷ more) v h =
      let (w, e, object, members) = laws.set_object v name x h in
      let (w', e', object', members') = assign_members more w object in
      (
        w',
        ap (λ o. or_throw o >>= assign J more) e ∙ e',
        object',
        λ j. members' j ∙ ap (member_after J more j) (members j),
      )

  -- The last assignment of a message's record, which a connect leaves out.
  abbrev pub app_id_part : Bool → J.Value → List (Bytes × J.Value)
  app_id_part b v = if b then [] else ((codes "appid", v) ∷ [])

  -- The record has the application's id: it is assigned, or the request has it.
  abbrev pub HasAppId : Bool → J.Value → J.Value → Type 0
  HasAppId b root v = (b ≡ false) ⊎ (J.get root (codes "appid") ≡ some v)

  pub other_member :
      (b : Bool) (v : J.Value) (j : Bytes) (o : Option J.Value)
      → bytes_eq (codes "appid") j ≡ false
      → member_after J (app_id_part b v) j o ≡ o
  other_member true v j o h = refl
  other_member false v j o h = take_else _ _ h

  pub app_id_member :
      (b : Bool) (root v : J.Value)
      → HasAppId b root v
      → member_after J (app_id_part b v) (codes "appid") (J.get root (codes "appid")) ≡ some v
  app_id_member true root v (inl h) = cc
  app_id_member true root v (inr h) = h
  app_id_member false root v h = refl

  -- Two values agree on a name that is one of three, and the first has no other.
  pub three_names :
      (find doc : J.Value) (a b c : Bytes)
      → J.get find a ≡ J.get doc a
      → J.get find b ≡ J.get doc b
      → J.get find c ≡ J.get doc c
      → (x y z : J.Value)
      → ((j : Bytes)
          → J.get find j ≡ (
              if bytes_eq c j
              then some z
              else (if bytes_eq b j
                  then some y
                  else (if bytes_eq a j then some x else some J.null))))
      → Selects J find doc
  three_names find doc a b c at_a at_b at_c x y z members name =
      elim (Bool-cases (bytes_eq c name)) [
        | inl e ↦ inr (same c at_c e)
        | inr not_c ↦ elim (Bool-cases (bytes_eq b name)) [
          | inl e ↦ inr (same b at_b e)
          | inr not_b ↦ elim (Bool-cases (bytes_eq a name)) [
            | inl e ↦ inr (same a at_a e)
            | inr not_a ↦
                inl (members name ∙ take_else _ _ not_c ∙ take_else _ _ not_b ∙ take_else _ _ not_a)
          ]
        ]
      ]
    where
      same :
          (k : Bytes)
          → J.get find k ≡ J.get doc k
          → bytes_eq k name ≡ true
          → J.get find name ≡ J.get doc name
      same k agree e =
          let k=name : k ≡ name = (bytes_eq_iff k name).0 e in
          ap (J.get find) (sym k=name) ∙ agree ∙ ap (J.get doc) k=name
