-- ===== src/Server/Daemon.antt =====
-- `daemon` of ApsMain.cpp: how the server leaves its terminal at the start of `main`.
use pushserver.Prelude.{
  ℕ, ◌<◌, ◌≡◌, refl, ◌∙◌, Bool, true, false, not, ◌&&◌, Option, none, some, Bytes, codes, ltb, ◌==◌,
  if◌then◌else◌, arith, Bool-cases, inl, inr,
}
use pushserver.Server.{Start, exits, serves}

-- What the process is: whether it leads a session, its directory, and its open files by their
-- descriptors.
pub record Environment : Type 0 where
  pub leader : Bool
  pub directory : Bytes
  pub files : ℕ → Option Bytes

pub data Daemon : Type 0 where
  fails : Daemon
  parent_exits : Daemon
  goes_on : Environment → Daemon

pub data Fork : Type 0 where
  fork_fails is_child is_parent : Fork

abbrev pub dev_null : Bytes
dev_null = codes "/dev/null"

abbrev pub set_file : ℕ → Option Bytes → Environment → Environment
set_file n file e = record e { files = λ k. if n == k then file else e.files k }

-- `dup2(fd, n)`.
abbrev pub dup : ℕ → ℕ → Environment → Environment
dup fd n e = set_file n (e.files fd) e

-- Behind `open`, which returned a descriptor.
unfoldable pub redirect : ℕ → Environment → Environment
redirect fd e =
    let e' = dup fd 2 (dup fd 1 (dup fd 0 (set_file fd (some dev_null) e))) in
    if ltb 2 fd then set_file fd none e' else e'

abbrev pub redirect_all : Bool → Option ℕ → Environment → Environment
redirect_all true opened e = e
redirect_all false none e = e
redirect_all false (some fd) e = redirect fd e

-- What `fork`, `setsid` and `open` return; the directory changes where it can.
unfoldable pub daemon : Fork → Bool → Bool → Option ℕ → Bool → Bool → Environment → Daemon
unfolding redirect
daemon fork_fails session changes opened nochdir noclose e = fails
daemon is_parent session changes opened nochdir noclose e = parent_exits
daemon is_child session changes opened nochdir noclose e =
    if not session
    then fails
    else (let e' = record e { leader = true } in
        let moved = if not nochdir && changes then record e' { directory = codes "/" } else e' in
        goes_on (redirect_all noclose opened moved))

-- Where `open` returned a descriptor that was free, the standard descriptors are /dev/null, and all
-- others are as they were: none is left open.
pub redirect-files :
    (fd : ℕ) (e : Environment)
    → e.files fd ≡ none
    → (n : ℕ) → (redirect fd e).files n ≡ (if ltb n 3 then some dev_null else e.files n)
unfolding redirect
redirect-files fd e free n = ground (arith, free)

-- How `main` goes on behind `daemon(0, 0)`; the parent that forked has left by `_exit(0)`.
unfoldable pub start_main : Fork → Bool → Bool → Option ℕ → Environment → Start × Environment
unfolding daemon
start_main forks session changes opened e =
    elim (daemon forks session changes opened false false e) [
      | fails ↦ (exits 255, e)
      | parent_exits ↦ (exits 0, e)
      | goes_on e' ↦ (serves, e')
    ]

redirect-leader : (fd : ℕ) (e : Environment) → (redirect fd e).leader ≡ e.leader
unfolding redirect
redirect-leader fd e = ground arith

only_null :
    (e : Environment)
    → ((n : ℕ) → 2 < n → e.files n ≡ none)
    → (n : ℕ)
    → (if ltb n 3 then some dev_null else e.files n) ≡ (if ltb n 3 then some dev_null else none)
only_null e closed n = elim (Bool-cases (ltb n 3)) [
  | inl low ↦ rw low refl
  | inr high ↦ rw high (closed n (ground (arith, high)))
]

-- A server that goes on leads a session of its own and has no file open but /dev/null at its
-- standard descriptors, where the process had no others and `open` returned a free descriptor.
pub start_main-files :
    (session changes : Bool) (fd : ℕ) (e : Environment)
    → e.files fd ≡ none
    → ((n : ℕ) → 2 < n → e.files n ≡ none)
    → (start_main is_child session changes (some fd) e).0 ≡ serves
    → ((start_main is_child session changes (some fd) e).1.leader ≡ true)
      × ((n : ℕ)
          → (start_main is_child session changes (some fd) e).1.files n
            ≡ (if ltb n 3 then some dev_null else none))
unfolding start_main daemon
start_main-files false changes fd e free closed on = absurd (ground (arith, on))
start_main-files true true fd e free closed on = (
  redirect-leader fd (record e { leader = true; directory = codes "/" }),
  λ n.
      redirect-files fd (record e { leader = true; directory = codes "/" }) free n
      ∙ only_null e closed n,
)
start_main-files true false fd e free closed on = (
  redirect-leader fd (record e { leader = true }),
  λ n. redirect-files fd (record e { leader = true }) free n ∙ only_null e closed n,
)
