-- ===== src/System/Invariant.antt =====
-- What holds of the sessions and the registry, and how storing and deleting an object keeps it.
use pushserver.Prelude.{
  ℕ, List, [], ◌∷◌, Option, ◌≡◌, ◌≢◌, ◌⊎◌, refl, sym, ◌∙◌, inl, inr, some, none, Bytes, arith,
  Bool-cases, ◌==◌, false, ==_iff, take_then, take_else, subst,
}
use mathlib.Core.Option.{some-injective}
use pushserver.Prelude.Dict.{lookup}
use pushserver.Mqtt.Packet.{init_new}
use pushserver.Mqtt.Registry.{find_mqtt_session}
use pushserver.Mqtt.Session.{Session}
use pushserver.Provider.Session.{World, store}
use pushserver.System.{new_mqtt_server, accept_device, forget, IsIn, start}

-- The entries of the registry that name a session have its token, and it is not new.
abbrev pub IsNamed : World → ℕ → Session → Type 0
IsNamed w a s =
    (token : Bytes)
    → find_mqtt_session token w.registry ≡ some a
    → (s.status ≢ init_new) × (s.client_id ≡ token)

-- An object that is at its address, and is named so where no object was deleted at the address.
abbrev pub IsRight : List ℕ → World → ℕ → Session → Type 0
IsRight gone w a s = (s.self ≡ a) × (IsNamed w a s ⊎ IsIn a gone)

-- An entry of the registry names an object, or an address at which one was deleted.
abbrev pub IsBacked : List ℕ → ℕ → Option Session → Type 0
IsBacked gone a none = IsIn a gone
IsBacked gone a (some s) = Unit

pub record Inv (gone : List ℕ) (w : World) : Type 0 where
  pub right : (a : ℕ) (s : Session) → w.sessions a ≡ some s → IsRight gone w a s
  pub backed :
      (token : Bytes) (a : ℕ)
      → find_mqtt_session token w.registry ≡ some a
      → IsBacked gone a (w.sessions a)

-- The same for the objects at other addresses.
pub record InvBut (a : ℕ) (gone : List ℕ) (w : World) : Type 0 where
  pub right : (b : ℕ) (s : Session) → a ≢ b → w.sessions b ≡ some s → IsRight gone w b s
  pub backed :
      (token : Bytes) (b : ℕ)
      → a ≢ b
      → find_mqtt_session token w.registry ≡ some b
      → IsBacked gone b (w.sessions b)

differs : (a b : ℕ) → (a == b) ≡ false → a ≢ b
differs a b e same = ground (arith, (==_iff a b).1 same, e)

module _ (gone : List ℕ) (a : ℕ) (w : World) where
  pub store-Inv : (s : Session) → IsRight gone w a s → InvBut a gone w → Inv gone (store a s w)
  store-Inv s here_right others = record {
    right = λ b t e. elim (Bool-cases (a == b)) [
      | inl same ↦
          let s=t = some-injective s t (sym (take_then _ _ same) ∙ e) in
          subst (λ k. IsRight gone w k t) ((==_iff a b).0 same)
            (subst (λ u. IsRight gone w a u) s=t here_right)
      | inr differ ↦ others.right b t (differs a b differ) (sym (take_else _ _ differ) ∙ e)
    ];
    backed = λ token b e. elim (Bool-cases (a == b)) [
      | inl same ↦ subst (IsBacked gone b) (sym (take_then (some s) (w.sessions b) same)) tt
      | inr differ ↦
          subst (IsBacked gone b) (sym (take_else (some s) (w.sessions b) differ))
            (others.backed token b (differs a b differ) e)
    ];
  }

  pub forget-Inv : IsIn a gone → InvBut a gone w → Inv gone (forget a w)
  forget-Inv buried others = record {
    right = λ b t e. elim (Bool-cases (a == b)) [
      | inl same ↦ absurd (ground (arith, take_then none (w.sessions b) same, e))
      | inr differ ↦ others.right b t (differs a b differ) (sym (take_else _ _ differ) ∙ e)
    ];
    backed = λ token b e. elim (Bool-cases (a == b)) [
      | inl same ↦
          subst (IsBacked gone b) (sym (take_then none (w.sessions b) same))
            (subst (λ k. IsIn k gone) ((==_iff a b).0 same) buried)
      | inr differ ↦
          subst (IsBacked gone b) (sym (take_else none (w.sessions b) differ))
            (others.backed token b (differs a b differ) e)
    ];
  }

pub start-Inv : Inv [] start
unfolding find_mqtt_session lookup
start-Inv = record { right = λ a s e. cc; backed = λ token a e. cc }

-- An address without an object: no entry names it, or an object was deleted at it.
free-IsNamed :
    (gone : List ℕ) (a : ℕ) (s : Session) (w : World)
    → w.sessions a ≡ none
    → Inv gone w
    → Dec (IsIn a gone)
    → IsNamed w a s ⊎ IsIn a gone
free-IsNamed gone a s w free inv (yes old) = inr old
free-IsNamed gone a s w free inv (no new) =
    inl (λ token e. absurd (new (subst (IsBacked gone a) free (inv.backed token a e))))

IsIn? : (a : ℕ) (l : List ℕ) → Dec (IsIn a l)
IsIn? a [] = no (λ h. h)
IsIn? a (b ∷ l) = elim (Bool-cases (b == a)) [
  | inl same ↦ yes (inl ((==_iff b a).0 same))
  | inr differ ↦ elim (IsIn? a l) [
    | yes h ↦ yes (inr h)
    | no h ↦ no (λ either. elim either [
      | inl same ↦ absurd (ground (arith, (==_iff b a).1 same, differ))
      | inr later ↦ h later
    ])
  ]
]

Inv-but : (a : ℕ) (gone : List ℕ) (w : World) → Inv gone w → InvBut a gone w
Inv-but a gone w inv = record {
  right = λ b s n. inv.right b s;
  backed = λ token b n. inv.backed token b;
}

pub accept-Inv :
    (gone : List ℕ) (a : ℕ) (memory : Session) (w : World)
    → w.sessions a ≡ none
    → Inv gone w
    → Inv gone (accept_device a memory w)
unfolding accept_device
accept-Inv gone a memory w free inv =
    store-Inv gone a w (new_mqtt_server a memory)
      (refl, free-IsNamed gone a (new_mqtt_server a memory) w free inv (IsIn? a gone))
      (Inv-but a gone w inv)
