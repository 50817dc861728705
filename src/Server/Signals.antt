-- ===== src/Server/Signals.antt =====
-- The signals that the parent and the server catch, and the loop of the server: ApsMain.cpp and
-- RunServer.cpp.
use pushserver.Prelude.{
  ℕ, ◌≡◌, ◌≢◌, refl, ap, ◌∙◌, List, [], ◌∷◌, ◌++◌, true, false, arith, append_assoc, append-nil,
  sym, none,
}
use pushserver.Server.{
  Signal, sig_pipe, sig_hup, sig_int, sig_term, sig_quit, sig_alrm, Process, sigcatcher,
  send_to_child, run_server,
}

-- A process behind signals that it catches one after the other.
abbrev pub catch_all : List Signal → Process → Process
catch_all [] p = p
catch_all (s ∷ more) p = catch_all more (sigcatcher s p)

-- The signals that the parent sends on to its child `c`.
abbrev pub sent_on : ℕ → List Signal → List (ℕ × Signal)
sent_on c [] = []
sent_on c (sig_hup ∷ more) = (c, sig_hup) ∷ sent_on c more
sent_on c (sig_int ∷ more) = (c, sig_int) ∷ sent_on c more
sent_on c (sig_term ∷ more) = (c, sig_term) ∷ sent_on c more
sent_on c (sig_quit ∷ more) = (c, sig_quit) ∷ sent_on c more
sent_on c (sig_pipe ∷ more) = sent_on c more
sent_on c (sig_alrm ∷ more) = sent_on c more

-- The process at the end of each second, over the signals that come in it.
abbrev pub course : List (List Signal) → Process → List Process
course [] p = []
course (sigs ∷ more) p = catch_all sigs p ∷ course more (catch_all sigs p)

-- A parent that has a child.
abbrev pub IsParent : Process → Type 0
IsParent p = (p.child_pid ≢ 0) × (p.child_pid ≢ p.pid)

send_to_child-IsParent :
    (sig : Signal) (p : Process)
    → p.child_pid ≢ 0
    → p.child_pid ≢ p.pid
    → send_to_child sig p ≡ (record p { kills = p.kills ++ (p.child_pid, sig) ∷ [] }, true)
unfolding send_to_child
send_to_child-IsParent sig p h k = ground arith

send_to_child_child :
    (sig : Signal) (p : Process) → p.child_pid ≡ 0 → send_to_child sig p ≡ (p, false)
unfolding send_to_child
send_to_child_child sig p h = ground arith

sigcatcher_child : (sig : Signal) (p : Process) → p.child_pid ≡ 0 → sigcatcher sig p ≡ p
unfolding sigcatcher
sigcatcher_child sig_hup p h = ap (λ q. q.0) (send_to_child_child sig_hup p h)
sigcatcher_child sig_int p h = ap (λ q. q.0) (send_to_child_child sig_int p h)
sigcatcher_child sig_term p h = ap (λ q. q.0) (send_to_child_child sig_term p h)
sigcatcher_child sig_quit p h = ap (λ q. q.0) (send_to_child_child sig_quit p h)
sigcatcher_child sig_pipe p h = refl
sigcatcher_child sig_alrm p h = refl

catch_all_child : (sigs : List Signal) (p : Process) → p.child_pid ≡ 0 → catch_all sigs p ≡ p
catch_all_child [] p h = refl
catch_all_child (s ∷ sigs) p h =
    ap (catch_all sigs) (sigcatcher_child s p h) ∙ catch_all_child sigs p h

run_server_unset :
    (p : Process) (more : List Process)
    → p.sig_int_set ≡ false
    → p.sig_term_set ≡ false
    → run_server (p ∷ more) ≡ run_server more
unfolding run_server
run_server_unset p more h k = ground arith

run_server-course :
    (seconds : List (List Signal)) (p : Process)
    → p.child_pid ≡ 0
    → p.sig_int_set ≡ false
    → p.sig_term_set ≡ false
    → run_server (course seconds p) ≡ none
unfolding run_server
run_server-course [] p h i t = refl
run_server-course (sigs ∷ more) p h i t =
    ap (λ q. run_server (q ∷ course more q)) (catch_all_child sigs p h)
    ∙ run_server_unset p (course more p) i t
    ∙ run_server-course more p h i t

-- Signals behind one that is sent on.
sends_first :
    (s : Signal) (sigs : List Signal) (p : Process)
    → IsParent p
    → ((q : Process) → IsParent q → (catch_all sigs q).kills ≡ q.kills ++ sent_on q.child_pid sigs)
    → (catch_all sigs (send_to_child s p).0).kills
      ≡ p.kills ++ (p.child_pid, s) ∷ sent_on p.child_pid sigs
sends_first s sigs p (h, k) rest =
    ap (λ q. (catch_all sigs q.0).kills) (send_to_child-IsParent s p h k)
    ∙ rest (record p { kills = p.kills ++ (p.child_pid, s) ∷ [] }) (h, k)
    ∙ append_assoc p.kills ((p.child_pid, s) ∷ []) (sent_on p.child_pid sigs)

catch_all-sent_on :
    (sigs : List Signal) (p : Process)
    → IsParent p
    → (catch_all sigs p).kills ≡ p.kills ++ sent_on p.child_pid sigs
unfolding sigcatcher
catch_all-sent_on [] p h = sym (append-nil p.kills)
catch_all-sent_on (sig_hup ∷ sigs) p h = sends_first sig_hup sigs p h (catch_all-sent_on sigs)
catch_all-sent_on (sig_int ∷ sigs) p h = sends_first sig_int sigs p h (catch_all-sent_on sigs)
catch_all-sent_on (sig_term ∷ sigs) p h = sends_first sig_term sigs p h (catch_all-sent_on sigs)
catch_all-sent_on (sig_quit ∷ sigs) p h = sends_first sig_quit sigs p h (catch_all-sent_on sigs)
catch_all-sent_on (sig_pipe ∷ sigs) p h = catch_all-sent_on sigs p h
catch_all-sent_on (sig_alrm ∷ sigs) p h = catch_all-sent_on sigs p h

-- Whatever signals come, a parent that has a child sends SIGHUP, SIGINT, SIGTERM and SIGQUIT on to
-- it, each once and in their order; and a server with neither flag set, which is no parent, goes on
-- behind every second, whatever signals it catches in it.
pub run_server-sent_on :
    (parent : Process)
    → IsParent parent
    → (sigs : List Signal) (child : Process) → child.child_pid ≡ 0
    → child.sig_int_set ≡ false
    → child.sig_term_set ≡ false
    → (seconds : List (List Signal))
    → ((catch_all sigs parent).kills ≡ parent.kills ++ sent_on parent.child_pid sigs)
      × (run_server (course seconds child) ≡ none)
run_server-sent_on parent k sigs child h i t seconds =
    (catch_all-sent_on sigs parent k, run_server-course seconds child h i t)
