-- ===== src/Tls/Android/Waiting.antt =====
-- That no message is lost while OpenSSL is blocked: SslAndroidTcpSocket.cpp.
use mathlib.Core.List.{Perm, perm_middle, perm_append_singleton}
use mathlib.Core.List.Perm
use pushserver.Prelude.{
  ℕ, zero, suc, ◌≡◌, ◌≢◌, ◌⊎◌, inl, inr, refl, sym, ap, ◌∙◌, subst, List, [], ◌∷◌, ◌++◌, Bool, true,
  false, Option, none, some, Bytes, Result, ok, ok_inj, overrun, thrown, stuck, ◌>>=◌, length, ◌==◌,
  ==_refl, append_assoc, arith, take_then,
}
use pushserver.Tls.{SslError, error_none, want_write, want_read, broken, use_ssl}
use pushserver.Tls.Android.{
  AndroidSocket, after_android_send, android_send, resent, resend, write_waiting, android_run,
}

-- OpenSSL takes the message at the front whole, or fails.
abbrev pub IsWhole : ℕ → List Bytes → Type 0
IsWhole taken [] = Unit
IsWhole taken (m ∷ ms) = (taken ≡ 0) ⊎ ((length m ≡ taken) × (taken ≢ 0))

-- The life of a socket that was given these messages, newest first, and said of none that it is to
-- be connected again.
pub data Serves : List Bytes → AndroidSocket → Type 0 where
  starts : {s : AndroidSocket} → s.waiting ≡ [] → s.written ≡ [] → Serves [] s
  sends :
      (e : SslError) (m : Bytes) (given : List Bytes) (s : AndroidSocket) {s' : AndroidSocket}
      → Serves given s
      → android_send e m s ≡ ok (s', false)
      → Serves (m ∷ given) s'
  writes :
      (taken : ℕ) (given : List Bytes) (s : AndroidSocket) {s' : AndroidSocket}
      → Serves given s
      → IsWhole taken s.waiting
      → android_run false true taken s ≡ ok (s', false)
      → Serves given s'

abbrev pub messages : AndroidSocket → List Bytes
messages s = s.written ++ s.waiting

use_ssl_inv :
    {A : Type 0} (o : Option ℕ) (live : List ℕ) (m : Result A) (a : A)
    → use_ssl o live m ≡ ok a
    → m ≡ ok a
use_ssl_inv none live m a h = cc
use_ssl_inv (some b) live m a h = ground arith

module _ (m : Bytes) (given : List Bytes) where
  send-perm :
      (e : SslError) (s s' : AndroidSocket)
      → Perm (messages s) given
      → after_android_send e m s ≡ (s', false)
      → Perm (messages s') (m ∷ given)
  send-perm error_none s s' p e = subst (λ q. Perm (messages q.0) (m ∷ given)) e (Perm.cons m p)
  send-perm want_write s s' p e =
      subst (λ q. Perm (messages q.0) (m ∷ given)) e
        (Perm.trans
          (subst (λ l. Perm l (m ∷ messages s)) (append_assoc s.written s.waiting (m ∷ []))
            (perm_append_singleton m (messages s)))
          (Perm.cons m p))
  send-perm want_read s s' p e = cc
  send-perm broken s s' p e = cc

-- The head of the list, where it has been taken whole.
resent-messages :
    (m : Bytes) (ms : List Bytes) (s : AndroidSocket)
    → messages (resent ms (record s { written = m ∷ s.written })) ≡ m ∷ (s.written ++ ms)
resent-messages m [] s = refl
resent-messages m (k ∷ ms) s = refl

resend-perm :
    (taken : ℕ) (m : Bytes) (ms given : List Bytes) (s : AndroidSocket)
    → (taken ≡ 0) ⊎ ((length m ≡ taken) × (taken ≢ 0))
    → s.waiting ≡ m ∷ ms
    → Perm (messages s) given
    → Perm (messages (resend taken m ms s)) given
resend-perm zero m ms given s whole front p = p
resend-perm (suc n) m ms given s (inl none_taken) front p = absurd (omega arith)
resend-perm (suc n) m ms given s (inr (all, some_taken)) front p =
    let whole : (suc n == length m) ≡ true = ap (λ k. suc n == k) all ∙ ==_refl (suc n) in
    subst (λ l. Perm l given) (sym (ap messages (take_then _ _ whole) ∙ resent-messages m ms s))
      (Perm.trans (Perm.symm (perm_middle s.written ms))
        (subst (λ w. Perm (s.written ++ w) given) front p))

write_waiting-perm :
    (taken : ℕ) (waiting given : List Bytes) (s s' : AndroidSocket)
    → s.waiting ≡ waiting
    → IsWhole taken waiting
    → write_waiting taken waiting s ≡ ok s'
    → Perm (messages s) given
    → Perm (messages s') given
write_waiting-perm taken [] given s s' front whole e p =
    subst (λ t. Perm (messages t) given) (ok_inj s s' e) p
write_waiting-perm taken (m ∷ ms) given s s' front whole e p =
    subst (λ t. Perm (messages t) given)
      (ok_inj (resend taken m ms s) s' (use_ssl_inv s.tls.ssl s.tls.live_ssl _ s' e))
      (resend-perm taken m ms given s whole front p)

abbrev kept_task : AndroidSocket → Result (AndroidSocket × Bool)
kept_task s = ok (s, false)

android_run_inv :
    (m : Result AndroidSocket) (s' : AndroidSocket) → (m >>= kept_task) ≡ kept_task s' → m ≡ ok s'
android_run_inv (ok t) s' e = ap ok (ap (λ q. q.0) (ok_inj (t, false) (s', false) e))
android_run_inv thrown s' e = cc
android_run_inv overrun s' e = cc
android_run_inv stuck s' e = cc

-- If OpenSSL takes a message that waits whole or not at all, what has been written and what waits
-- are together the messages given, in some order: none is lost and none is written twice, however
-- the sends that were blocked and the write events follow one another.
pub Serves-perm :
    (given : List Bytes) (s : AndroidSocket) → Serves given s → Perm (s.written ++ s.waiting) given
unfolding android_send android_run
Serves-perm given s (starts none_waits none_written) =
    subst (λ l. Perm l []) (sym (ap (λ w. w ++ s.waiting) none_written ∙ none_waits)) Perm.nil
Serves-perm given s (sends e m before t h sent) =
    send-perm m before e t s (Serves-perm before t h)
      (ok_inj _ _ (use_ssl_inv t.tls.ssl t.tls.live_ssl _ (s, false) sent))
Serves-perm given s (writes taken before t h whole done) =
    write_waiting-perm taken t.waiting given t s refl whole
      (android_run_inv (write_waiting taken t.waiting t) s done) (Serves-perm before t h)
