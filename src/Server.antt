-- ===== src/Server.antt =====
-- ApsMain.cpp, RunServer.cpp and AvconPushServer.cpp: the parent process, which starts the server as
-- a child and starts it again, the signals, and the start and the end of the server itself.
pub mod Restart
pub mod Signals
pub mod Startup
pub mod Daemon
use pushserver.Listeners.{Listener}
use pushserver.Prelude.{
  ℕ, zero, suc, ◌+◌, ◌*◌, ◌/◌, ◌%◌, List, [], ◌∷◌, ◌++◌, Bool, true, false, not, ◌&&◌, ◌||◌, Option,
  none, some, Bytes, codes, strcmp_eq, ltb, ◌==◌, if◌then◌else◌, ℤ, pos, negsuc,
}

-- The macros on the status of `wait`.
abbrev pub wif_exited : ℕ → Bool
wif_exited status = status % 128 == 0

abbrev pub wexit_status : ℕ → ℕ
wexit_status status = status / 256 % 256

abbrev pub wif_signaled : ℕ → Bool
wif_signaled status = not (status % 128 == 0) && not (status % 128 == 127)

abbrev pub is_minus_one : ℤ → Bool
is_minus_one (negsuc zero) = true
is_minus_one _ = false

pub data Decision : Type 0 where
  restarts_child : Decision
  exits_success : Decision
  exits_failure : Decision
  keeps_waiting : Decision

-- One `wait`: whether it returns a process, or -1 with the status left as it was.
unfoldable pub after_wait : Bool → ℕ → Decision
after_wait found status =
    if wif_exited status && (found && not (status == 0))
    then (if is_minus_one (pos (wexit_status status)) then exits_failure else restarts_child)
    else (if wif_signaled status
        then restarts_child
        else (if not found && (status == 0)
            then keeps_waiting
            else (if found && (status == 0) then exits_success else exits_failure)))

-- Behind one `wait`: another one while the parent waits.
abbrev pub wait_on : Decision → Decision → Decision
wait_on restarts_child later = restarts_child
wait_on exits_success later = exits_success
wait_on exits_failure later = exits_failure
wait_on keeps_waiting later = later

-- The loop on `wait`, over what it returns.
unfoldable pub wait_loop : List (Bool × ℕ) → Decision
unfolding after_wait
wait_loop [] = keeps_waiting
wait_loop ((found, status) ∷ more) = wait_on (after_wait found status) (wait_loop more)

-- The preference auto_restart, `none` for a missing one.
unfoldable pub restart_server : Option Bytes → Bool
restart_server none = true
restart_server (some setting) = not (strcmp_eq setting (codes "false"))

-- What has become of the parent.
pub data Parent : Type 0 where
  exited : Bool → Parent
  waits : Parent
  -- It is to start a child.
  starts_child : Parent

-- A child, by what the waits for it return and the preference read behind it.
abbrev pub Child : Type 0
Child = List (Bool × ℕ) × Option Bytes

-- Behind the loop on `wait`: the number of children started, with this one.
abbrev pub behind : Decision → Bool → ℕ × Parent → ℕ × Parent
behind restarts_child true (n, p) = (suc n, p)
behind restarts_child false rest = (1, exited true)
behind exits_success again rest = (1, exited true)
behind exits_failure again rest = (1, exited false)
behind keeps_waiting again rest = (1, waits)

-- The loop of `main`.
unfoldable pub supervise : List Child → ℕ × Parent
unfolding wait_loop restart_server
supervise [] = (0, starts_child)
supervise ((answers, setting) ∷ more) =
    behind (wait_loop answers) (restart_server setting) (supervise more)

-- How the child ends, or that it serves. `exit` with a negative number is one modulo 256.
pub data Start : Type 0 where
  exits : ℕ → Start
  serves : Start

-- The checks of the configuration file.
pub record ConfigFile : Type 0 where
  pub is_directory : Bool
  pub can_write : Bool
  pub exists : Bool
  pub parses : Bool

unfoldable pub check_file_correct : ConfigFile → Start → Start
check_file_correct f next =
    if f.is_directory
    then exits 0
    else (if not f.can_write
        then exits 0
        else (if not f.exists then exits 255 else (if not f.parses then exits 255 else next)))

abbrev pub has_listeners : List Listener → Start
has_listeners [] = exits 0
has_listeners (l ∷ more) = serves

-- `StartServer`: whether the two databases are reached, and the listeners that `CreateListeners`
-- leaves.
unfoldable pub start_server : ConfigFile → Bool → Bool → List Listener → Start
unfolding check_file_correct
start_server f redis token_redis listeners =
    check_file_correct f
      (if redis then (if token_redis then has_listeners listeners else exits 255) else exits 255)

-- The status of a child that exits or serves until `run_server` returns.
abbrev pub code_of : Start → ℕ → ℕ
code_of (exits code) later = code
code_of serves later = later

-- The signals that are caught.
pub data Signal : Type 0 where
  sig_pipe sig_hup sig_int sig_term sig_quit sig_alrm : Signal

-- A process: `child_pid` is `sChildPID`, and the two flags are the server's. `kills` has the signals
-- that are sent on, in their order.
pub record Process : Type 0 where
  pub pid : ℕ
  pub child_pid : ℕ
  pub sig_int_set : Bool
  pub sig_term_set : Bool
  pub kills : List (ℕ × Signal)

unfoldable pub send_to_child : Signal → Process → Process × Bool
send_to_child sig p =
    if not (p.child_pid == 0) && not (p.child_pid == p.pid)
    then (record p { kills = p.kills ++ (p.child_pid, sig) ∷ [] }, true)
    else (p, false)

unfoldable pub sigcatcher : Signal → Process → Process
unfolding send_to_child
sigcatcher sig_hup p = (send_to_child sig_hup p).0
sigcatcher sig_int p = (send_to_child sig_int p).0
sigcatcher sig_term p = (send_to_child sig_term p).0
sigcatcher sig_quit p = (send_to_child sig_quit p).0
sigcatcher sig_pipe p = p
sigcatcher sig_alrm p = p

-- The loop of `RunServer` from a state in which the server runs, over the process at the end of each
-- second: `none` while it goes on, and whether the server is to be started again.
unfoldable pub run_server : List Process → Option Bool
run_server [] = none
run_server (p ∷ more) =
    let rest = run_server more in
    if p.sig_int_set || p.sig_term_set then some p.sig_int_set else rest

-- The status with which the server ends behind `run_server`: `exit(-2)` where it is to be started
-- again, and `EXIT_SUCCESS`.
unfoldable pub exit_code : Bool → ℕ
exit_code restart = if restart then 254 else 0
