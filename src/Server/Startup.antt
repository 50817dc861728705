-- ===== src/Server/Startup.antt =====
-- A server that cannot start, under the parent that starts it: `StartServer` of RunServer.cpp and the
-- loop of ApsMain.cpp.
use pushserver.Prelude.{
  ℕ, suc, ◌+◌, ◌≡◌, ◌⊎◌, inl, inr, ap, ◌∙◌, refl, List, [], ◌∷◌, ◌++◌, map, Bool, true, false,
  Option, Bytes, length, All, arith, if◌then◌else◌,
}
use pushserver.Config.{
  Prefs, ListenerConfig, app_initialize_param, mqtt_initialize_param, push_initialize_param,
}
use pushserver.Listeners.{Listener, ContextCalls, add_listener, create_listeners}
use pushserver.Server.{
  Start, exits, exited, ConfigFile, start_server, code_of, check_file_correct, has_listeners,
  restart_server, Child, supervise,
}
use pushserver.Server.Restart.{
  with_code, child_of_run, Run, IsRestarted, IsLast, supervise_restarted, supervise_last,
}

-- A start of a child: what the parent waits through, what the child finds, and the preference that
-- is read behind it.
pub record Attempt : Type 0 where
  pub interrupts : ℕ
  pub file : ConfigFile
  pub redis : Bool
  pub token_redis : Bool
  pub listeners : List Listener
  pub setting : Option Bytes

abbrev pub start_of : Attempt → Start
start_of a = start_server a.file a.redis a.token_redis a.listeners

abbrev pub run_of : Attempt → Run
run_of a = (a.interrupts, with_code (code_of (start_of a) 0), a.setting)

-- What makes it fail: the preference file is missing or is not read, or a database is not reached.
abbrev pub IsMissing : Attempt → Type 0
IsMissing a =
    (a.file.exists ≡ false)
    ⊎ ((a.file.parses ≡ false) ⊎ ((a.redis ≡ false) ⊎ (a.token_redis ≡ false)))

-- The preference file is no directory and can be written, something is missing, and the preference
-- read behind the child lets the parent start another.
abbrev pub IsFatal : Attempt → Type 0
IsFatal a =
    (a.file.is_directory ≡ false)
    × (a.file.can_write ≡ true)
    × IsMissing a
    × (restart_server a.setting ≡ true)

-- What makes the child give up with success: the file is a directory or cannot be written, or
-- nothing is missing but there is no listener.
abbrev pub GivesUp : Attempt → Type 0
GivesUp a =
    (a.file.is_directory ≡ true)
    ⊎ ((a.file.can_write ≡ false)
        ⊎ ((a.file.exists ≡ true)
            × (a.file.parses ≡ true)
            × (a.redis ≡ true)
            × (a.token_redis ≡ true)
            × (a.listeners ≡ [])))

start_of_missing :
    (a : Attempt)
    → a.file.is_directory ≡ false
    → a.file.can_write ≡ true
    → IsMissing a
    → start_of a ≡ exits 255
unfolding start_server check_file_correct
start_of_missing a plain writes missing = ground arith

start_of-GivesUp : (a : Attempt) → GivesUp a → start_of a ≡ exits 0
unfolding start_server check_file_correct
start_of-GivesUp a (inl directory) = rw directory refl
start_of-GivesUp a (inr (inl shut)) = ground arith
start_of-GivesUp a (inr (inr (found, read, first, second, none_))) =
    rw (found, read, first, second, none_) (ground arith)

run_of-IsFatal : (a : Attempt) → IsFatal a → IsRestarted (run_of a)
run_of-IsFatal a (plain, writes, missing, k) =
    (rw (start_of_missing a plain writes missing) (omega arith, omega arith), k)

run_of-GivesUp : (a : Attempt) → GivesUp a → IsLast (run_of a)
run_of-GivesUp a h = inl (ap (λ s. with_code (code_of s 0)) (start_of-GivesUp a h))

supervise_fatal :
    (attempts : List Attempt)
    → All IsFatal attempts
    → (more : List Child)
    → supervise (map (λ a. child_of_run (run_of a)) attempts ++ more)
      ≡ (length attempts + (supervise more).0, (supervise more).1)
supervise_fatal [] hs more = ap (λ n. (n, (supervise more).1)) (omega arith)
supervise_fatal (a ∷ attempts) (h, hs) more =
    supervise_restarted (run_of a) (map (λ a. child_of_run (run_of a)) attempts ++ more)
      (run_of-IsFatal a h)
    ∙ ap (λ q. (suc q.0, q.1)) (supervise_fatal attempts hs more)
    ∙ ap (λ n. (n, (supervise more).1)) (omega arith)

-- Children that end because the preference file, which is no directory and can be written, is
-- missing or is not read, or because a database is not reached, are each started again, if the
-- preference read behind them allows another start: the parent has started all of them, and goes on
-- with whatever comes next. Where it starts one then for which the preference file is a directory
-- or cannot be written, or which finds everything but has no listener, the parent ends with
-- success.
pub supervise-start_server :
    (attempts : List Attempt)
    → All IsFatal attempts
    → (last : Attempt) → GivesUp last
    → (more : List Child)
    → (supervise (map (λ a. child_of_run (run_of a)) attempts ++ more)
        ≡ (length attempts + (supervise more).0, (supervise more).1))
      × (supervise
            (map (λ a. child_of_run (run_of a)) attempts ++ child_of_run (run_of last) ∷ more)
          ≡ (length attempts + 1, exited true))
supervise-start_server attempts hs last h more = (
  supervise_fatal attempts hs more,
  supervise_fatal attempts hs (child_of_run (run_of last) ∷ more)
      ∙ ap (λ q. (length attempts + q.0, q.1))
          (supervise_last (run_of last) more (run_of-GivesUp last h)),
)

has_listeners-add_listener :
    (i j k : Bool) (l l' m n : Listener)
    → has_listeners (add_listener i l (add_listener j m (add_listener k n [])))
      ≡ has_listeners (add_listener i l (add_listener j l' (add_listener k n [])))
has_listeners-add_listener true j k l l' m n = refl
has_listeners-add_listener false true k l l' m n = refl
has_listeners-add_listener false false k l l' m n = refl

abbrev pub can_listen : (Bytes → ℕ → Bool) → ListenerConfig → Bool
can_listen initialize c = initialize c.addr c.port

-- Whether the server starts does not depend on OpenSSL: a listener without its certificate or its
-- key listens as well.
pub start_server-create_listeners :
    (P : Prefs) (o o' : ContextCalls) (initialize : Bytes → ℕ → Bool) (old : ListenerConfig)
    (f : ConfigFile) (redis token_redis : Bool)
    → start_server f redis token_redis (create_listeners P o initialize old)
      ≡ start_server f redis token_redis (create_listeners P o' initialize old)
unfolding create_listeners start_server
start_server-create_listeners P o o' initialize old f redis token_redis =
    ap
      (λ s.
        check_file_correct f (if redis then (if token_redis then s else exits 255) else exits 255))
      (has_listeners-add_listener (can_listen initialize (app_initialize_param P old))
        (can_listen initialize (push_initialize_param P old))
        (can_listen initialize (mqtt_initialize_param P old)) _ _ _ _)
