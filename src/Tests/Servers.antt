-- ===== src/Tests/Servers.antt =====
-- Tests of the parent process and of the start of the server.
use pushserver.Prelude.{
  ◌≡◌, refl, List, [], ◌∷◌, ◌++◌, map, true, false, none, some, codes, arith, ok, inl, inr,
}
use pushserver.Config.{ListenerConfig}
use pushserver.Listeners.{
  ContextCalls, create_listeners, start_tasks, mqtt_listener, accepted, get_session_task,
}
use pushserver.Server.{
  exited, starts_child, serves, ConfigFile, restart_server, supervise, start_server, Process,
  sig_term, sig_int, sig_alrm, sig_hup, run_server,
}
use pushserver.Server.Restart.{with_code, by_signal, Run, child_of_run, supervise-child_of}
use pushserver.Server.Signals.{catch_all, course, run_server-sent_on}
use pushserver.Server.Startup.{Attempt, run_of, supervise-start_server}
use pushserver.Tests.Data.{prefs}
use pushserver.Apns.Hex.{hex2chr}
use pushserver.Apns.Feedback.{on_process_feedback}

-- Two children that fail, the first one behind two signals that the parent catches.
abbrev failures : List Run
failures = (2, with_code 1, none) ∷ (0, by_signal 11 true, some (codes "true")) ∷ []

abbrev stopped : Run
stopped = (0, by_signal 9 false, some (codes "false"))

supervise-child_of_example :
    supervise (map child_of_run failures ++ child_of_run stopped ∷ []) ≡ (3, exited true)
unfolding restart_server
supervise-child_of_example =
    supervise-child_of failures
      (((omega arith, omega arith), refl), (((omega arith, omega arith), refl), tt)) stopped
      (inr ((omega arith, omega arith), refl)) []

abbrev file : ConfigFile
file = record { is_directory = false; can_write = true; exists = true; parses = true }

-- The database cannot be reached.
abbrev attempt : Attempt
attempt = record {
  interrupts = 1;
  file = file;
  redis = false;
  token_redis = true;
  listeners = [];
  setting = none;
}

-- The preference file is gone.
abbrev no_file : Attempt
no_file = record attempt { file = record file { exists = false }; redis = true }

-- The preference file is a directory.
abbrev directory : Attempt
directory = record attempt { file = record file { is_directory = true } }

supervise-start_server_example :
    (supervise (map (λ a. child_of_run (run_of a)) (attempt ∷ no_file ∷ []) ++ [])
      ≡ (2, starts_child))
    × (supervise (
          map (λ a. child_of_run (run_of a)) (attempt ∷ no_file ∷ [])
          ++ child_of_run (run_of directory) ∷ [])
        ≡ (3, exited true))
unfolding restart_server supervise
supervise-start_server_example =
    supervise-start_server (attempt ∷ no_file ∷ [])
      ((refl, refl, inr (inr (inl refl)), refl), ((refl, refl, inl refl, refl), tt)) directory
      (inl refl) []

abbrev parent : Process
parent = record { pid = 10; child_pid = 11; sig_int_set = false; sig_term_set = false; kills = [] }

abbrev child : Process
child = record { pid = 11; child_pid = 0; sig_int_set = false; sig_term_set = false; kills = [] }

run_server-sent_on_example :
    ((catch_all (sig_term ∷ sig_alrm ∷ sig_int ∷ []) parent).kills
      ≡ (11, sig_term) ∷ (11, sig_int) ∷ [])
    × (run_server (course ((sig_term ∷ []) ∷ (sig_int ∷ sig_hup ∷ []) ∷ []) child) ≡ none)
run_server-sent_on_example =
    run_server-sent_on parent (omega arith, omega arith) (sig_term ∷ sig_alrm ∷ sig_int ∷ []) child
      refl refl refl ((sig_term ∷ []) ∷ (sig_int ∷ sig_hup ∷ []) ∷ [])

-- A key that OpenSSL does not take.
abbrev no_key : ContextCalls
no_key = record {
  loads_ca = λ path. true;
  uses_certificate = λ path. true;
  uses_key = λ path. false;
  matches = λ cert key. true;
}

abbrev empty : ListenerConfig
empty = record { addr = []; port = 0; path = []; cert = []; key = [] }

starts_without_key :
    start_server file true true (create_listeners prefs no_key (λ addr port. true) empty) ≡ serves
unfolding start_server create_listeners
starts_without_key = refl

listens_to_three :
    map (λ l. l.config.addr) (start_tasks (create_listeners prefs no_key (λ addr port. true) empty))
    ≡ codes "web_server_ip" ∷ codes "c2dm_server_ip" ∷ codes "mqtt_server_ip" ∷ []
unfolding start_tasks create_listeners
listens_to_three = refl

accepts_mqtt : get_session_task mqtt_listener true 7 ≡ some (accepted 7 none 98304)
unfolding get_session_task
accepts_mqtt = refl

-- A token of 32 bytes that Apple reports: the time is not the one that was sent, and the bytes are
-- taken for hexadecimal digits.
feedback_misread :
    on_process_feedback [] (80 ∷ 0 ∷ 0 ∷ 1 ∷ 0 ∷ 32 ∷ (codes "0a00" ++ 0 ∷ []))
    ≡ ok (some (record { time = 1342177280; device_token = 10 ∷ [] }))
unfolding on_process_feedback hex2chr
feedback_misread = refl
