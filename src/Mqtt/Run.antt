-- ===== src/Mqtt/Run.antt =====
-- `MqttServer::Run` and `CleanupRequest` of MqttServer.cpp. What the loop asks of the socket and
-- the streams, which are not part of the repository, is a list of turns, one for each test of
-- `IsLiveSession()`; `stuck` means that the list was too short.
pub mod Keeps
pub mod Cleanup
use pushserver.Prelude.{
  ℕ, List, [], ◌∷◌, ◌++◌, Bool, false, ◌||◌, Option, none, some, Bytes, Result, ok, stuck, ◌>>=◌,
  pos, ◌==◌, if◌then◌else◌, ◌≡◌, ◌∙◌, arith, thrown, overrun,
}
use pushserver.Json.{Json}
use pushserver.Mqtt.Session.{
  Session, Effect, wants_write, signals_write, sends, refreshes, sets_timeout, sleeps, emit,
}
use pushserver.Mqtt.Framing.{process_loop}

-- What `ReadRequest` and `Flush` return; any other code of a read means that the client is gone.
pub data ZqError : Type 0 where
  no_error request_arrived too_big again other : ZqError

pub record Turn : Type 0 where
  pub live : Bool
  pub read : ZqError
  pub buffer : Bytes
  pub n_len : ℕ
  pub flush : ZqError
  pub unsent : Option Bytes

pub record Events : Type 0 where
  pub timeout : Bool
  pub kill : Bool
  pub reads : Bool
  pub writes : Bool
  pub zmq : Bool

-- -1 deletes the task, 0 keeps it.
pub data Returns : Type 0 where
  deleted kept : Returns

-- The end of `Run`, after `CleanupRequest` has read and dropped what the socket still holds.
abbrev pub leave : ℕ → Session → Result (Session × Returns)
leave holders s = ok (s, if holders == 0 then deleted else kept)

-- After a request has been served; 0 is `ZQ_NoErr`, and on an error the rest is dropped.
unfoldable pub flush_reply : Turn → Session × ℕ → Session
flush_reply t (s, rc) =
    if rc == 0
    then elim t.flush [
      | again ↦ elim t.unsent [
        | none ↦ emit wants_write s
        | some bytes ↦ record (emit wants_write s) { msg_list = s.msg_list ++ bytes ∷ [] }
      ]
      | _ ↦ s
    ]
    else s

unfoldable pub serve_turn : Json → Turn → Session → Result Session
unfolding flush_reply
serve_turn J t s = do
  done ← process_loop t.n_len J t.buffer (pos t.n_len) s
  ok (flush_reply t done)

-- The write event: the call of `Send` is commented out in the source, so `err` is still that of
-- the last read, which is `ZQ_NoErr` whenever no read event is left; the head of the list goes.
unfoldable pub write_turn : Session → Session
write_turn s = elim s.msg_list [
  | [] ↦ s
  | m ∷ [] ↦ record s { msg_list = [] }
  | m ∷ (n ∷ ms) ↦ record (emit signals_write s) { msg_list = n ∷ ms }
]

unfoldable pub run_loop : Json → ℕ → List Turn → Events → Session → Result (Session × Returns)
unfolding serve_turn write_turn
run_loop J holders [] ev s = stuck
run_loop J holders (t ∷ ts) ev s =
    let read_on = run_loop J holders ts ev s in
    let read_off = run_loop J holders ts (record ev { reads = false }) s in
    let served = serve_turn J t s >>= run_loop J holders ts ev in
    let written = run_loop J holders ts (record ev { writes = false }) (write_turn s) in
    let zmq_off = run_loop J holders ts (record ev { zmq = false }) s in
    if t.live
    then (if ev.reads
        then elim t.read [
          | no_error ↦ read_off
          | request_arrived ↦ served
          | too_big ↦ read_on
          | again ↦ leave holders s
          | other ↦ leave holders s
        ]
        else (if ev.writes then written else (if ev.zmq then zmq_off else ok (s, kept))))
    else leave holders s

unfoldable pub run : Json → ℕ → List Turn → Events → Session → Result (Session × Returns)
unfolding run_loop
run J holders ts ev s =
    if ev.timeout || ev.kill then ok (s, deleted) else run_loop J holders ts ev s

-- No request arrives in these turns.
abbrev pub IsQuiet : List Turn → Type 0
IsQuiet [] = Unit {0}
IsQuiet (t ∷ ts) = (t.read ≡ request_arrived → ⊥) × IsQuiet ts

abbrev pub SameRegistry : Session → Result (Session × Returns) → Type 0
SameRegistry s (ok (s', r)) = s'.registry ≡ s.registry
SameRegistry s thrown = Unit {0}
SameRegistry s overrun = ⊥
SameRegistry s stuck = Unit {0}

loop_quiet :
    (J : Json) (holders : ℕ) (ts : List Turn) (ev : Events) (s : Session)
    → IsQuiet ts
    → SameRegistry s (run_loop J holders ts ev s)
unfolding run_loop
loop_quiet J holders [] ev s q = tt
loop_quiet J holders (t ∷ ts) ev s q = ground (
  arith,
  loop_quiet J holders ts (record ev { reads = false }) s q.1,
  loop_quiet J holders ts ev s q.1,
  loop_quiet J holders ts (record ev { writes = false }) (write_turn s) q.1,
  loop_quiet J holders ts (record ev { zmq = false }) s q.1,
)

-- A run in which no request arrives, be it ended by a timeout, a kill or a lost connection, leaves
-- the registry as it is where it returns: a device that was registered stays registered to the
-- session object even if that is deleted.
pub run_quiet :
    (J : Json) (holders : ℕ) (ts : List Turn) (ev : Events) (s : Session)
    → IsQuiet ts
    → SameRegistry s (run J holders ts ev s)
unfolding run
run_quiet J holders ts ev s q = ground (arith, loop_quiet J holders ts ev s q)

-- The messages that the socket was given, the newest first.
abbrev pub sent : List Effect → List Bytes
sent [] = []
sent (sends bytes ∷ es) = bytes ∷ sent es
sent (wants_write ∷ es) = sent es
sent (signals_write ∷ es) = sent es
sent (refreshes ∷ es) = sent es
sent (sets_timeout n ∷ es) = sent es
sent (sleeps n ∷ es) = sent es

abbrev pub SameWire : Session → Result (Session × Returns) → Type 0
SameWire s (ok (s', r)) = sent s'.effects ≡ sent s.effects
SameWire s thrown = Unit {0}
SameWire s overrun = ⊥
SameWire s stuck = Unit {0}

write_turn-sent : (s : Session) → sent (write_turn s).effects ≡ sent s.effects
unfolding write_turn
write_turn-sent s = ground arith

SameWire-trans :
    (s t : Session) (m : Result (Session × Returns))
    → sent t.effects ≡ sent s.effects
    → SameWire t m
    → SameWire s m
SameWire-trans s t (ok (s', r)) e h = h ∙ e
SameWire-trans s t thrown e h = tt
SameWire-trans s t overrun e h = h
SameWire-trans s t stuck e h = tt

loop_quiet_wire :
    (J : Json) (holders : ℕ) (ts : List Turn) (ev : Events) (s : Session)
    → IsQuiet ts
    → SameWire s (run_loop J holders ts ev s)
unfolding run_loop
loop_quiet_wire J holders [] ev s q = tt
loop_quiet_wire J holders (t ∷ ts) ev s q = ground (
  arith,
  loop_quiet_wire J holders ts (record ev { reads = false }) s q.1,
  loop_quiet_wire J holders ts ev s q.1,
  SameWire-trans s (write_turn s)
      (run_loop J holders ts (record ev { writes = false }) (write_turn s)) (write_turn-sent s)
      (loop_quiet_wire J holders ts (record ev { writes = false }) (write_turn s) q.1),
  loop_quiet_wire J holders ts (record ev { zmq = false }) s q.1,
)

-- While no request arrives, a run that returns has given nothing to the socket, whatever messages
-- are waiting and however often it is ready to be written: a message that the socket refused once
-- is not sent then.
pub run_sends_nothing :
    (J : Json) (holders : ℕ) (ts : List Turn) (ev : Events) (s : Session)
    → IsQuiet ts
    → SameWire s (run J holders ts ev s)
unfolding run
run_sends_nothing J holders ts ev s q = ground (arith, loop_quiet_wire J holders ts ev s q)
