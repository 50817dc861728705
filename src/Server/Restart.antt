-- ===== src/Server/Restart.antt =====
-- How often the parent starts the server, and how the parent ends: ApsMain.cpp.
use pushserver.Prelude.{
  ℕ, zero, suc, ◌+◌, ◌*◌, ◌<◌, ◌≡◌, ap, ◌∙◌, List, [], ◌∷◌, ◌++◌, map, Bool, true, false, Option,
  if◌then◌else◌, Bytes, length, replicate, All, arith, ◌⊎◌, inl, inr, refl,
}
use pushserver.Server.{
  restarts_child, exits_success, keeps_waiting, exit_code, after_wait, wait_on, wait_loop,
  restart_server, exited, Child, behind, supervise,
}

-- How a child has ended: with an exit code, or by a signal, with a core or without one.
pub data End : Type 0 where
  with_code : ℕ → End
  by_signal : ℕ → Bool → End

abbrev pub status_of : End → ℕ
status_of (with_code code) = code * 256
status_of (by_signal n false) = n
status_of (by_signal n true) = n + 128

-- An exit code that is not 0, or a signal.
abbrev pub IsFailure : End → Type 0
IsFailure (with_code code) = (0 < code) × (code < 256)
IsFailure (by_signal n core) = (0 < n) × (n < 127)

-- A child for which the parent is woken up by so many signals before it ends.
abbrev pub child_of : ℕ → End → Option Bytes → Child
child_of interrupts e setting =
    (replicate interrupts (false, 0) ++ (true, status_of e) ∷ [], setting)

-- A run of a child, by the same three.
abbrev pub Run : Type 0
Run = ℕ × End × Option Bytes

abbrev pub child_of_run : Run → Child
child_of_run (interrupts, e, setting) = child_of interrupts e setting

-- It fails, and the preference read behind it lets the parent start another.
abbrev pub IsRestarted : Run → Type 0
IsRestarted (interrupts, e, setting) = IsFailure e × (restart_server setting ≡ true)

-- It ends with 0, or it fails and the preference read behind it is "false".
abbrev pub IsLast : Run → Type 0
IsLast (interrupts, e, setting) = (e ≡ with_code 0) ⊎ IsFailure e × (restart_server setting ≡ false)

after_wait_code : (code : ℕ) → 0 < code → code < 256 → after_wait true (code * 256) ≡ restarts_child
unfolding after_wait
after_wait_code code h k = ground arith

after_wait_signal : (n : ℕ) → 0 < n → n < 127 → after_wait true n ≡ restarts_child
unfolding after_wait
after_wait_signal n h k = ground arith

after_wait_core : (n : ℕ) → 0 < n → n < 127 → after_wait true (n + 128) ≡ restarts_child
unfolding after_wait
after_wait_core n h k = ground arith

after_wait-IsFailure : (e : End) → IsFailure e → after_wait true (status_of e) ≡ restarts_child
after_wait-IsFailure (with_code code) (h, k) = after_wait_code code h k
after_wait-IsFailure (by_signal n false) (h, k) = after_wait_signal n h k
after_wait-IsFailure (by_signal n true) (h, k) = after_wait_core n h k

wait_loop-IsFailure :
    (interrupts : ℕ) (e : End)
    → IsFailure e
    → (setting : Option Bytes) → wait_loop (child_of interrupts e setting).0 ≡ restarts_child
unfolding wait_loop after_wait
wait_loop-IsFailure zero e h setting = ap (λ d. wait_on d keeps_waiting) (after_wait-IsFailure e h)
wait_loop-IsFailure (suc n) e h setting = wait_loop-IsFailure n e h setting

wait_loop_success :
    (interrupts : ℕ) (setting : Option Bytes)
    → wait_loop (child_of interrupts (with_code 0) setting).0 ≡ exits_success
unfolding wait_loop after_wait
wait_loop_success zero setting = refl
wait_loop_success (suc n) setting = wait_loop_success n setting

pub supervise_restarted :
    (r : Run) (more : List Child)
    → IsRestarted r
    → supervise (child_of_run r ∷ more) ≡ (suc (supervise more).0, (supervise more).1)
unfolding supervise
supervise_restarted (n, e, setting) more (h, k) =
    ap (λ d. behind d (restart_server setting) (supervise more)) (wait_loop-IsFailure n e h setting)
    ∙ ap (λ b. behind restarts_child b (supervise more)) k

pub supervise_last :
    (r : Run) (more : List Child) → IsLast r → supervise (child_of_run r ∷ more) ≡ (1, exited true)
unfolding supervise
supervise_last (n, e, setting) more (inl h) =
    ap (λ d. supervise (child_of n d setting ∷ more)) h
    ∙ ap (λ d. behind d (restart_server setting) (supervise more)) (wait_loop_success n setting)
supervise_last (n, e, setting) more (inr (h, k)) =
    ap (λ d. behind d (restart_server setting) (supervise more)) (wait_loop-IsFailure n e h setting)
    ∙ ap (λ b. behind restarts_child b (supervise more)) k

-- After any number of children that fail, by an exit code of 1 to 255 or by a signal below 127,
-- with a core or without one, each behind any number of waits that a signal interrupted and where
-- the preference read then lets the parent start another, and then one that exits with 0, or that
-- fails where the preference is false: the parent has started all of these, and ends with success.
pub supervise-child_of :
    (runs : List Run)
    → All IsRestarted runs
    → (last : Run) → IsLast last
    → (more : List Child)
    → supervise (map child_of_run runs ++ child_of_run last ∷ more)
      ≡ (suc (length runs), exited true)
supervise-child_of [] hs last h more = supervise_last last more h
supervise-child_of (r ∷ runs) (k, ks) last h more =
    supervise_restarted r (map child_of_run runs ++ child_of_run last ∷ more) k
    ∙ ap (λ q. (suc q.0, q.1)) (supervise-child_of runs ks last h more)

-- The parent starts a server again that ends with the flag of SIGINT, and ends itself behind one that
-- ends with the flag of SIGTERM alone: what `wait` returns tells the two ends of `RunServer` apart.
pub after_wait-exit_code :
    (restart : Bool)
    → after_wait true (256 * exit_code restart)
      ≡ (if restart then restarts_child else exits_success)
unfolding after_wait exit_code
after_wait-exit_code true = refl
after_wait-exit_code false = refl
