-- ===== src/App/Request/Alert.antt =====
-- Where the alert of a publish request goes: `ParseRequestMessage` of ApsAppRequestMessage.cpp.
use pushserver.Prelude.{
  ◌≡◌, refl, ap, ◌∙◌, List, [], ◌∷◌, Bool, true, false, ◌||◌, none, some, Bytes, codes, strcmp_eq,
  if◌then◌else◌, ok, ◌>>=◌, or_throw, All, Bool-cases, inl, inr, bind_known,
}
use pushserver.Json.{Json}
use pushserver.App.Request.{
  Request, Notice, has_member, read_member, read_notification, parse_notification,
}

if-or :
    {A : Type 0} (b c : Bool) (x y : A)
    → (if c then x else (if b then x else y)) ≡ (if b || c then x else y)
if-or true true x y = refl
if-or true false x y = refl
if-or false true x y = refl
if-or false false x y = refl

module _ (J : Json) (v a : J.Value) (given : J.get v (codes "alert") ≡ some a) where
  -- The name of no platform.
  abbrev pub IsPlain : Bytes → Type 0
  IsPlain name = (strcmp_eq name (codes "ios") ≡ false) × (strcmp_eq name (codes "android") ≡ false)

  read_plain :
      (name : Bytes) (n : Notice J)
      → IsPlain name
      → read_member J v name n
        ≡ ok (record n { alert = if strcmp_eq name (codes "alert") then some a else n.alert })
  read_plain name n h = elim (Bool-cases (strcmp_eq name (codes "alert"))) [
    | inl e ↦ rw (e, given) refl
    | inr e ↦ rw (e, h.0, h.1) refl
  ]

  -- The loop over the members of a notification that names no platform.
  read-All_plain :
      (names : List Bytes) (n : Notice J)
      → All IsPlain names
      → read_notification J v names n
        ≡ ok (record n { alert = if has_member J (codes "alert") names then some a else n.alert })
  unfolding read_notification has_member
  read-All_plain [] n h = refl
  read-All_plain (name ∷ names) n h =
      bind_known _ (read_plain name n h.0)
      ∙ read-All_plain names
          (record n { alert = if strcmp_eq name (codes "alert") then some a else n.alert }) h.1
      ∙ ap (λ o. ok (record n { alert = o }))
          (if-or (strcmp_eq name (codes "alert")) (has_member J (codes "alert") names) (some a)
            n.alert)

  -- Where the notification has an alert and names no platform, the messages for both are their old
  -- values with this alert: in a new request object, the alert alone.
  pub parse_notification-default_alert :
      (r : Request J) (names : List Bytes) (android ios : J.Value)
      → J.get r.root (codes "notification") ≡ some v
      → J.members v ≡ some names
      → All IsPlain names
      → has_member J (codes "alert") names ≡ true
      → J.set r.android (codes "alert") a ≡ some android
      → J.set r.ios (codes "alert") a ≡ some ios
      → parse_notification J r
        ≡ ok (record r {
          root = J.touch r.root (codes "notification");
          android = android;
          ios = ios;
        })
  unfolding parse_notification
  parse_notification-default_alert r names android ios notification listed plain alert set_android
        set_ios =
      bind_known _
        (ap (λ o. or_throw o >>= λ x. ok (x, J.touch r.root (codes "notification"))) notification)
      ∙ bind_known _ (ap or_throw listed)
      ∙ bind_known _ (
          read-All_plain names start plain
          ∙ ap (λ b. ok (record start { alert = if b then some a else none })) alert)
      ∙ bind_known _ (ap or_throw set_android)
      ∙ bind_known _ (ap or_throw set_ios)
    where
      start : Notice J
      start = record {
        alert = none;
        ios_flag = false;
        ios = r.ios;
        android_flag = false;
        android = r.android;
      }
