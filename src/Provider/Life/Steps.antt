-- ===== src/Provider/Life/Steps.antt =====
-- The TLS sessions of the listener as a step relation: SslSvrSession.cpp and
-- TCPSslSessionInterface.cpp.
use pushserver.Prelude.{
  ℕ, ◌≡◌, ◌≢◌, refl, sym, ap, ◌∙◌, List, [], ◌∷◌, false, some, ok, All, arith, bind_known, subst,
  Ends, Ends-bind, Ends-any, Ends-ok,
}
use pushserver.Json.{Json}
use pushserver.Mqtt.Run.{Events, Returns, deleted, kept}
use pushserver.Tls.{free_pointer}
use pushserver.Provider.Run.{Turn, Task, run}
use pushserver.Provider.Life.{
  Atomic, SslSession, Host, find_session, drop_session, set_session, new_ssl_session,
  increment_object_holder_count, decrement_object_holder_count, delete_session, after_run,
  run_session,
}
use pushserver.Provider.Life.Owned.{
  owned, IsDistinct, IsOwner, free_pointer-owned, IsDistinct-drop_session, set-owned,
}

-- The task of a session.
abbrev pub task_of : Host → SslSession → Task
task_of h s = record { state = s.state; messages = s.messages; world = h.world; asks = [] }

module _ (J : Json) (A : Atomic) where
  abbrev pub changed : ℕ → SslSession → Host → Host
  changed a s h = record h { sessions = set_session a s h.sessions }

  -- What can happen: a connection is accepted, where `SSL_new` returns an object that no session
  -- has; an object is held or let go; the task of a session runs.
  pub data Step (h h' : Host) : Type 0 where
    accepts :
        (a ssl : ℕ)
        → All (λ x. ssl ≢ x) h.live_ssl
        → new_ssl_session A a (some ssl) h ≡ ok h'
        → Step h h'
    holds :
        (a : ℕ) (s : SslSession)
        → find_session a h.sessions ≡ some s
        → h' ≡ changed a (increment_object_holder_count A s) h
        → Step h h'
    lets_go :
        (a : ℕ) (s : SslSession)
        → find_session a h.sessions ≡ some s
        → h' ≡ changed a (decrement_object_holder_count A s) h
        → Step h h'
    runs :
        (ts : List Turn) (ev : Events) (a : ℕ) (s : SslSession)
        → find_session a h.sessions ≡ some s
        → run_session J ts ev a s h ≡ ok h'
        → Step h h'

  pub data Reaches : Host → Type 0 where
    starts : {h : Host} → h.sessions ≡ [] → h.live_ssl ≡ [] → Reaches h
    next : {h h' : Host} → Reaches h → Step h h' → Reaches h'

  pub changed-IsOwner :
      (a : ℕ) (s t : SslSession) (h : Host)
      → find_session a h.sessions ≡ some s
      → t.ssl ≡ s.ssl
      → IsOwner h
      → IsOwner (changed a t h)
  changed-IsOwner a s t h found same (live, distinct) =
      let e = sym (set-owned a s t h.sessions found same) in (live ∙ e, subst IsDistinct e distinct)

  pub decrement-ssl : (s : SslSession) → (decrement_object_holder_count A s).ssl ≡ s.ssl
  unfolding decrement_object_holder_count
  decrement-ssl s = ground arith

  -- A session that is found is deleted, and its TLS object is freed.
  pub delete-IsOwner :
      (a : ℕ) (s : SslSession) (h : Host)
      → find_session a h.sessions ≡ some s
      → IsOwner h
      → (h' : Host) × (delete_session a s h ≡ ok h')
        × (h'.sessions ≡ drop_session a h.sessions)
        × IsOwner h'
  unfolding delete_session
  delete-IsOwner a s h found (live, distinct) = (
    record h { sessions = drop_session a h.sessions; live_ssl = owned (drop_session a h.sessions) },
    bind_known _ (
        ap (λ l. free_pointer s.ssl l) live
        ∙ free_pointer-owned s.ssl a s h.sessions distinct found refl),
    refl,
    (refl, IsDistinct-drop_session a h.sessions distinct),
  )

  after_run-IsOwner :
      (a : ℕ) (s : SslSession) (h : Host) (task : Task) (r : Returns)
      → find_session a h.sessions ≡ some s
      → IsOwner h
      → Ends IsOwner (after_run a s h (task, r))
  unfolding after_run
  after_run-IsOwner a s h task deleted found o =
      let (h', e, dropped, o') = delete-IsOwner a s (record h { world = task.world }) found o in
      subst (Ends IsOwner) (sym e) o'
  after_run-IsOwner a s h task kept found o =
      changed-IsOwner a s
        (record s { killed = false; state = task.state; messages = task.messages }) h found refl o

  Step-IsOwner : {h h' : Host} → Step h h' → IsOwner h → IsOwner h'
  unfolding new_ssl_session increment_object_holder_count run_session
  Step-IsOwner {h} {h'} (accepts a ssl fresh e) (live, distinct) =
      Ends-ok IsOwner (new_ssl_session A a (some ssl) h) h' e
        (ap (◌∷◌ ssl) live, (subst (All (λ x. ssl ≢ x)) live fresh, distinct))
  Step-IsOwner {h} {h'} (holds a s found e) o =
      subst IsOwner (sym e) (changed-IsOwner a s (increment_object_holder_count A s) h found refl o)
  Step-IsOwner {h} {h'} (lets_go a s found e) o =
      subst IsOwner (sym e)
        (changed-IsOwner a s (decrement_object_holder_count A s) h found (decrement-ssl s) o)
  Step-IsOwner {h} {h'} (runs ts ev a s found e) o =
      Ends-ok IsOwner (run_session J ts ev a s h) h' e (
        Ends-bind (λ done. Unit) IsOwner
          (run J s.holders ts (record ev { kill = s.killed }) (task_of h s)) _
          (Ends-any (λ done. Unit) _ (λ done. tt))
          (λ done u. after_run-IsOwner a s h done.0 done.1 found o))

  pub Reaches-IsOwner : {h : Host} → Reaches h → IsOwner h
  Reaches-IsOwner (starts {h} none_ dead) =
      let e : owned h.sessions ≡ [] = ap owned none_ in (dead ∙ sym e, subst IsDistinct (sym e) tt)
  Reaches-IsOwner (next r st) = Step-IsOwner st (Reaches-IsOwner r)

  -- From a start with no sessions, through any connections that are accepted, where SSL_new returns
  -- an object that is not live, any holders that come and go, whatever the atomic operations
  -- return, and any calls of Run that return, whatever arrives: the live objects of OpenSSL are
  -- those of the session objects, each of one session; and where the Run of a session returns -1,
  -- the session is deleted and its TLS object is freed, without freeing one that is not live, and
  -- again the live objects are those of the sessions.
  pub Reaches-run_session :
      (h : Host) (ts : List Turn) (ev : Events) (a : ℕ) (s : SslSession) (task : Task)
      → Reaches h
      → find_session a h.sessions ≡ some s
      → run J s.holders ts (record ev { kill = s.killed }) (task_of h s) ≡ ok (task, deleted)
      → (h.live_ssl ≡ owned h.sessions)
        × ((h' : Host) × (run_session J ts ev a s h ≡ ok h')
            × (h'.sessions ≡ drop_session a h.sessions)
            × (h'.live_ssl ≡ owned h'.sessions))
        × IsDistinct h.live_ssl
  unfolding run_session after_run
  Reaches-run_session h ts ev a s task r found gone =
      let (live, distinct) = Reaches-IsOwner r in
      let (h', e, dropped, (live', distinct')) =
        delete-IsOwner a s (record h { world = task.world }) found (live, distinct) in
      (
        live,
        (h', bind_known (after_run a s h) gone ∙ e, dropped, live'),
        subst IsDistinct (sym live) distinct,
      )
