-- ===== src/Provider/Life/Released.antt =====
-- A session whose connection is gone while others hold it: SslSvrSession.cpp and
-- TCPSslSessionInterface.cpp.
use pushserver.Prelude.{
  ℕ, zero, suc, ◌+◌, ◌^◌, ◌<◌, ◌≡◌, refl, sym, ap, ◌∙◌, List, [], ◌∷◌, true, false, some, ok, arith,
  bind_known, ◌==◌, ==_ne, if◌then◌else◌, Bool-cases, inl, inr, take_else,
}
use pushserver.Json.{Json}
use pushserver.Mqtt.Run.{Events, deleted, kept}
use pushserver.Provider.Run.{Turn, Task, run, run_loop}
use pushserver.Provider.Life.{
  Atomic, SslSession, Host, find_session, drop_session, set_session, let_go,
  decrement_object_holder_count, after_run, run_session,
}
use pushserver.Provider.Life.Owned.{IsOwner}
use pushserver.Provider.Life.Steps.{
  task_of, changed, Reaches, Reaches-IsOwner, delete-IsOwner, changed-IsOwner, decrement-ssl,
}

-- `atomic_sub` returns what is left.
abbrev pub IsAtomic : Atomic → Type 0
IsAtomic A = (x : ℕ) → suc x < 2 ^ 32 → A.sub (suc x) 1 ≡ (x, x)

find-set :
    (a : ℕ) (s t : SslSession) (ss : List (ℕ × SslSession))
    → find_session a ss ≡ some s
    → (find_session a (set_session a t ss) ≡ some t)
      × (drop_session a (set_session a t ss) ≡ drop_session a ss)
unfolding find_session set_session drop_session
find-set a s t [] found = absurd (ground (arith, found))
find-set a s t ((b, u) ∷ ss) found = elim (Bool-cases (a == b)) [
  | inl same ↦ (rw same (rw same refl), rw same (rw same refl))
  | inr differ ↦
      let (f, d) = find-set a s t ss (sym (take_else _ _ differ) ∙ found) in
      (rw differ (rw differ f), rw differ (rw differ (ap (◌∷◌ (b, u)) d)))
]

let_go-killed :
    (s : SslSession) (m : ℕ)
    → ((let_go s (m, m)).holders ≡ m)
      × ((let_go s (m, m)).killed ≡ (if m == 0 then true else s.killed))
let_go-killed s zero = (refl, refl)
let_go-killed s (suc m) = (ground arith, ground arith)

run_held :
    (J : Json) (holders n : ℕ) (t : Turn) (ts : List Turn) (ev : Events) (task : Task)
    → holders ≡ suc n
    → ev.timeout ≡ false
    → ev.kill ≡ false
    → t.live ≡ false
    → run J holders (t ∷ ts) ev task ≡ ok (task, kept)
unfolding run run_loop
run_held J holders n t ts ev task held quiet off dead =
    rw (quiet, off, dead, ==_ne holders 0 (λ same. omega (arith, held, same))) refl

run_killed :
    (J : Json) (holders : ℕ) (ts : List Turn) (ev : Events) (task : Task)
    → ev.timeout ≡ false
    → ev.kill ≡ true
    → run J holders ts ev task ≡ ok (task, deleted)
unfolding run
run_killed J holders ts ev task quiet on = rw (quiet, on) refl

module _ (J : Json) (A : Atomic) (laws : IsAtomic A) where
  -- The session after some others have let it go.
  abbrev pub released : ℕ → SslSession → SslSession
  released zero s = s
  released (suc k) s = decrement_object_holder_count A (released k s)

  released-ssl : (k : ℕ) (s : SslSession) → (released k s).ssl ≡ s.ssl
  released-ssl zero s = refl
  released-ssl (suc k) s = decrement-ssl J A (released k s) ∙ released-ssl k s

  decrement-killed :
      (s : SslSession) (m : ℕ)
      → s.holders ≡ suc m
      → suc m < 2 ^ 32
      → ((decrement_object_holder_count A s).holders ≡ m)
        × ((decrement_object_holder_count A s).killed ≡ (if m == 0 then true else s.killed))
  unfolding decrement_object_holder_count
  decrement-killed s m held small =
      let e = ap (let_go s) (ap (λ n. A.sub n 1) held ∙ laws m small) in
      let (count, signal) = let_go-killed s m in
      (ap (λ t. t.holders) e ∙ count, ap (λ t. t.killed) e ∙ signal)

  -- The holders that are left, and no kill event before the last has let it go.
  released-holders :
      (k m : ℕ) (s : SslSession)
      → s.holders ≡ k + m
      → k + m < 2 ^ 32
      → s.killed ≡ false
      → 0 < m
      → ((released k s).holders ≡ m) × ((released k s).killed ≡ false)
  released-holders zero m s held small off some_ = (omega (arith, held), off)
  released-holders (suc k) zero s held small off some_ = absurd (omega arith)
  released-holders (suc k) (suc m) s held small off some_ =
      let (count, quiet) =
        released-holders k (suc (suc m)) s (omega (arith, held)) (omega arith) off (omega arith) in
      let (count', signal) = decrement-killed (released k s) (suc m) count (omega arith) in
      (count', signal ∙ take_else _ _ (==_ne (suc m) 0 (λ same. omega (arith, same))) ∙ quiet)

  -- In every state that the TLS sessions reach, where atomic_sub returns what is left: a session
  -- that is held by some others, fewer than 2^32, with no kill event, whose connection is gone, is
  -- kept by a call of its Run with no timeout; the others that let it go, one after the other,
  -- signal no kill event before the last, and the last does; and a call of Run then deletes it and
  -- frees its TLS object, so that the live objects of OpenSSL are those of the sessions that are
  -- left.
  pub run_session-released :
      (h : Host) (t : Turn) (ts : List Turn) (ev : Events) (a n : ℕ) (s : SslSession)
      → Reaches J A h
      → find_session a h.sessions ≡ some s
      → s.holders ≡ suc n
      → suc n < 2 ^ 32
      → s.killed ≡ false
      → ev.timeout ≡ false
      → t.live ≡ false
      → (run_session J (t ∷ ts) ev a s h ≡ ok (changed J A a (record s { killed = false }) h))
        × ((released n s).killed ≡ false)
        × ((released (suc n) s).killed ≡ true)
        × ((h' : Host) × (run_session J
                (t ∷ ts)
                ev
                a
                (released (suc n) s)
                (changed J A a (released (suc n) s) h)
              ≡ ok h')
            × (h'.sessions ≡ drop_session a h.sessions)
            × IsOwner h')
  unfolding run_session after_run
  run_session-released h t ts ev a n s r found held small off quiet dead =
      let (count, waits) =
        released-holders n 1 s (omega (arith, held)) (omega arith) off (omega arith) in
      let (none_left, killed) = decrement-killed (released n s) 0 count (omega arith) in
      let u = released (suc n) s in
      let (f, d) = find-set a s u h.sessions found in
      let (h', e, dropped, o) =
        delete-IsOwner J A a u (changed J A a u h) f
          (changed-IsOwner J A a s u h found (released-ssl (suc n) s) (Reaches-IsOwner J A r)) in
      (
        bind_known (after_run a s h) (
            run_held J s.holders n t ts (record ev { kill = s.killed }) (task_of h s) held quiet off
              dead),
        waits,
        killed,
        (
          h',
          bind_known (after_run a u (changed J A a u h)) (
                run_killed J u.holders (t ∷ ts) (record ev { kill = u.killed })
                  (task_of (changed J A a u h) u) quiet killed)
              ∙ e,
          dropped ∙ d,
          o,
        ),
      )
