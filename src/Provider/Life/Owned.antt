-- ===== src/Provider/Life/Owned.antt =====
-- Who frees the TLS objects of the sessions, and when a session is deleted: SslSvrSession.cpp and
-- TCPSslSessionInterface.cpp.
use pushserver.Prelude.{
  ℕ, ◌≡◌, ◌≢◌, refl, sym, ap, ◌∙◌, List, [], ◌∷◌, ◌++◌, Option, none, some, ◌==◌, ==_refl, ==_ne,
  ok, Bool-cases, inl, inr, take_then, take_else, All, arith, bind_known, subst,
}
use mathlib.Core.Option.{some-injective}
use pushserver.Tls.{free, free_pointer}
use pushserver.Tls.Owned.{pointed}
use pushserver.Provider.Life.{SslSession, Host, find_session, drop_session, set_session}

-- The TLS objects of the sessions, in their order.
abbrev pub owned : List (ℕ × SslSession) → List ℕ
owned [] = []
owned ((a, s) ∷ ss) = pointed s.ssl ++ owned ss

abbrev pub IsDistinct : List ℕ → Type 0
IsDistinct [] = Unit
IsDistinct (x ∷ xs) = All (λ y. x ≢ y) xs × IsDistinct xs

-- The live objects of OpenSSL are those of the sessions, each of one session.
abbrev pub IsOwner : Host → Type 0
IsOwner h = (h.live_ssl ≡ owned h.sessions) × IsDistinct (owned h.sessions)

All-pointed : (P : ℕ → Type 0) (o : Option ℕ) (xs : List ℕ) → All P (pointed o ++ xs) → All P xs
All-pointed P none xs h = h
All-pointed P (some x) xs h = h.1

IsDistinct-pointed : (o : Option ℕ) (xs : List ℕ) → IsDistinct (pointed o ++ xs) → IsDistinct xs
IsDistinct-pointed none xs h = h
IsDistinct-pointed (some x) xs h = h.1

All-owned :
    (P : ℕ → Type 0) (a x : ℕ) (s : SslSession) (ss : List (ℕ × SslSession))
    → All P (owned ss)
    → find_session a ss ≡ some s
    → s.ssl ≡ some x
    → P x
unfolding find_session
All-owned P a x s [] h found e = absurd (ground (arith, found))
All-owned P a x s ((b, t) ∷ ss) h found e = elim (Bool-cases (a == b)) [
  | inl same ↦
      let t=s = some-injective t s (sym (take_then _ _ same) ∙ found) in
      (subst (λ o. All P (pointed o ++ owned ss)) (ap (λ u. u.ssl) t=s ∙ e) h).0
  | inr differ ↦
      All-owned P a x s ss (All-pointed P t.ssl (owned ss) h) (sym (take_else _ _ differ) ∙ found) e
]

-- Freeing behind objects that are others.
free-pointed :
    (x : ℕ) (o : Option ℕ) (xs ys : List ℕ)
    → All (λ y. x ≢ y) (pointed o)
    → free x xs ≡ ok ys
    → free x (pointed o ++ xs) ≡ ok (pointed o ++ ys)
unfolding free
free-pointed x none xs ys h e = e
free-pointed x (some y) xs ys h e = take_else _ _ (==_ne x y h.0) ∙ bind_known _ e

-- An object of the others is not that of the first.
other-pointed :
    (x : ℕ) (o : Option ℕ) (xs : List ℕ)
    → IsDistinct (pointed o ++ xs)
    → ((P : ℕ → Type 0) → All P xs → P x)
    → All (λ y. x ≢ y) (pointed o)
other-pointed x none xs h of = tt
other-pointed x (some y) xs h of = (λ same. of (λ z. y ≢ z) h.0 (sym same), tt)

free-owned :
    (a x : ℕ) (s : SslSession) (ss : List (ℕ × SslSession))
    → IsDistinct (owned ss)
    → find_session a ss ≡ some s
    → s.ssl ≡ some x
    → free x (owned ss) ≡ ok (owned (drop_session a ss))
unfolding find_session drop_session free
free-owned a x s [] h found e = absurd (ground (arith, found))
free-owned a x s ((b, t) ∷ ss) h found e = elim (Bool-cases (a == b)) [
  | inl same ↦
      let t=s = some-injective t s (sym (take_then _ _ same) ∙ found) in
      ap (λ o. free x (pointed o ++ owned ss)) (ap (λ u. u.ssl) t=s ∙ e)
      ∙ take_then _ _ (==_refl x)
      ∙ ap (λ rest. ok (owned rest)) (sym (take_then _ _ same))
  | inr differ ↦
      let there = sym (take_else _ _ differ) ∙ found in
      free-pointed x t.ssl (owned ss) (owned (drop_session a ss))
        (other-pointed x t.ssl (owned ss) h (λ P all. All-owned P a x s ss all there e))
        (free-owned a x s ss (IsDistinct-pointed t.ssl (owned ss) h) there e)
      ∙ ap (λ rest. ok (owned rest)) (sym (take_else _ _ differ))
]

drop-owned :
    (a : ℕ) (s : SslSession) (ss : List (ℕ × SslSession))
    → find_session a ss ≡ some s
    → s.ssl ≡ none
    → owned (drop_session a ss) ≡ owned ss
unfolding find_session drop_session
drop-owned a s [] found e = absurd (ground (arith, found))
drop-owned a s ((b, t) ∷ ss) found e = elim (Bool-cases (a == b)) [
  | inl same ↦
      let t=s = some-injective t s (sym (take_then _ _ same) ∙ found) in
      ap owned (take_then _ _ same)
      ∙ ap (λ o. pointed o ++ owned ss) (sym (ap (λ u. u.ssl) t=s ∙ e))
  | inr differ ↦
      ap owned (take_else _ _ differ)
      ∙ ap (◌++◌ (pointed t.ssl)) (drop-owned a s ss (sym (take_else _ _ differ) ∙ found) e)
]

pub free_pointer-owned :
    (o : Option ℕ) (a : ℕ) (s : SslSession) (ss : List (ℕ × SslSession))
    → IsDistinct (owned ss)
    → find_session a ss ≡ some s
    → s.ssl ≡ o
    → free_pointer o (owned ss) ≡ ok (owned (drop_session a ss))
unfolding free_pointer
free_pointer-owned none a s ss h found e = ap ok (sym (drop-owned a s ss found e))
free_pointer-owned (some x) a s ss h found e = free-owned a x s ss h found e

All-append_pointed :
    (P : ℕ → Type 0) (o : Option ℕ) (xs ys : List ℕ)
    → (All P xs → All P ys)
    → All P (pointed o ++ xs)
    → All P (pointed o ++ ys)
All-append_pointed P none xs ys f h = f h
All-append_pointed P (some x) xs ys f h = (h.0, f h.1)

All-drop_session :
    (P : ℕ → Type 0) (a : ℕ) (ss : List (ℕ × SslSession))
    → All P (owned ss)
    → All P (owned (drop_session a ss))
unfolding drop_session
All-drop_session P a [] h = tt
All-drop_session P a ((b, t) ∷ ss) h = elim (Bool-cases (a == b)) [
  | inl same ↦
      subst (λ rest. All P (owned rest)) (sym (take_then _ _ same))
        (All-pointed P t.ssl (owned ss) h)
  | inr differ ↦
      subst (λ rest. All P (owned rest)) (sym (take_else _ _ differ))
        (All-append_pointed P t.ssl (owned ss) (owned (drop_session a ss)) (All-drop_session P a ss)
          h)
]

IsDistinct-append :
    (o : Option ℕ) (xs ys : List ℕ)
    → ((P : ℕ → Type 0) → All P xs → All P ys)
    → IsDistinct ys
    → IsDistinct (pointed o ++ xs)
    → IsDistinct (pointed o ++ ys)
IsDistinct-append none xs ys f d h = d
IsDistinct-append (some x) xs ys f d h = (f (λ y. x ≢ y) h.0, d)

pub IsDistinct-drop_session :
    (a : ℕ) (ss : List (ℕ × SslSession))
    → IsDistinct (owned ss)
    → IsDistinct (owned (drop_session a ss))
unfolding drop_session
IsDistinct-drop_session a [] h = tt
IsDistinct-drop_session a ((b, t) ∷ ss) h = elim (Bool-cases (a == b)) [
  | inl same ↦
      subst (λ rest. IsDistinct (owned rest)) (sym (take_then _ _ same))
        (IsDistinct-pointed t.ssl (owned ss) h)
  | inr differ ↦
      subst (λ rest. IsDistinct (owned rest)) (sym (take_else _ _ differ))
        (IsDistinct-append t.ssl (owned ss) (owned (drop_session a ss))
          (λ P. All-drop_session P a ss)
          (IsDistinct-drop_session a ss (IsDistinct-pointed t.ssl (owned ss) h)) h)
]

pub set-owned :
    (a : ℕ) (s t : SslSession) (ss : List (ℕ × SslSession))
    → find_session a ss ≡ some s
    → t.ssl ≡ s.ssl
    → owned (set_session a t ss) ≡ owned ss
unfolding find_session set_session
set-owned a s t [] found e = refl
set-owned a s t ((b, u) ∷ ss) found e = elim (Bool-cases (a == b)) [
  | inl same ↦
      let u=s = some-injective u s (sym (take_then _ _ same) ∙ found) in
      ap owned (take_then _ _ same)
      ∙ ap (λ o. pointed o ++ owned ss) (e ∙ sym (ap (λ v. v.ssl) u=s))
  | inr differ ↦
      ap owned (take_else _ _ differ)
      ∙ ap (◌++◌ (pointed u.ssl)) (set-owned a s t ss (sym (take_else _ _ differ) ∙ found) e)
]
