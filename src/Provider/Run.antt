-- ===== src/Provider/Run.antt =====
-- `SslSvrSession::Run` of SslSvrSession.cpp. What the loop asks of the socket and the request
-- stream, which stand on OpenSSL, is a list of turns, one for each test of `IsLiveSession()`;
-- `stuck` means that the list was too short. What `CleanupRequest` reads is dropped.
pub mod Served
pub mod Keeps
use pushserver.Prelude.{
  ℕ, List, [], ◌∷◌, Bool, true, false, ◌||◌, Bytes, Result, ok, stuck, thrown, overrun, ◌>>=◌, ◌==◌,
  if◌then◌else◌,
}
use pushserver.Json.{Json}
use pushserver.Mqtt.Run.{
  Events, ZqError, no_error, request_arrived, too_big, again, other, Returns, deleted, kept,
}
use pushserver.Provider.Session.{World, process_loop}

-- `fState`.
pub data State : Type 0 where
  reading_request processing_request cleaning_up : State

pub record Turn : Type 0 where
  pub live : Bool
  pub read : ZqError
  pub buffer : Bytes
  pub n_len : ℕ

-- `RequestEvent` of the socket for reading or for both directions, and the task's own signal.
pub data Ask : Type 0 where
  wants_read wants_read_write signals_write : Ask

pub record Task : Type 0 where
  pub state : State
  pub messages : List Bytes
  pub world : World
  pub asks : List Ask

abbrev pub ask : Ask → Task → Task
ask a t = record t { asks = a ∷ t.asks }

-- A round of the loop returns from `Run`, or goes on: with the read event or without it, and with
-- the last error of a read being `EAGAIN` or not.
pub data Next : Type 0 where
  returns : Task → Next
  goes_on : Task → Bool → Bool → Next

-- After the receive loop has ended with a result.
abbrev pub finish_request : Bool → Task → World × ℕ → Next
finish_request was_again task (w, rc) =
    if rc == 0
    then returns (record task { state = reading_request; world = w })
    else goes_on (record task { state = cleaning_up; world = w }) true was_again

-- The case `kProcessingRequest`; its `err` hides the outer one.
unfoldable pub process_request : Json → Turn → Bool → Task → Result Next
process_request J t was_again task = do
  done ← process_loop t.n_len J t.buffer t.n_len task.world
  ok (finish_request was_again task done)

-- The case `kReadingRequest`, which has no `break` where a request has arrived or is too long.
unfoldable pub read_request : Json → Turn → ZqError → Task → Result Next
unfolding process_request
read_request J t no_error task = ok (goes_on (ask wants_read task) false false)
read_request J t request_arrived task =
    process_request J t false (record task { state = processing_request })
read_request J t too_big task = process_request J t false (record task { state = cleaning_up })
read_request J t again task = ok (goes_on task false true)
read_request J t other task = ok (goes_on task false false)

-- The switch of the read event.
unfoldable pub read_event : Json → Turn → Bool → State → Task → Result Next
unfolding read_request
read_event J t was_again reading_request task = read_request J t t.read task
read_event J t was_again processing_request task = process_request J t was_again task
read_event J t was_again cleaning_up task =
    ok (goes_on (record task { state = reading_request }) true was_again)

-- The write event. The call of `Send` is commented out in the source, so `err` is that of the last
-- read: after an `EAGAIN` the list stays, and otherwise its head goes.
unfoldable pub write_event : Bool → List Bytes → Task → Task
write_event was_again [] task = task
write_event true (m ∷ ms) task = ask wants_read_write task
write_event false (m ∷ []) task = record task { messages = [] }
write_event false (m ∷ n ∷ ms) task = ask signals_write (record task { messages = n ∷ ms })

-- The end of `Run`.
abbrev pub leave : ℕ → Task → Result (Task × Returns)
leave holders task = ok (task, if holders == 0 then deleted else kept)

-- What follows a round.
abbrev pub settle : (Bool → Bool → Task → Result (Task × Returns)) → Next → Result (Task × Returns)
settle go_on (returns task) = ok (task, kept)
settle go_on (goes_on task read was_again) = go_on read was_again task

unfoldable pub run_loop : Json → ℕ → List Turn → Events → Bool → Task → Result (Task × Returns)
unfolding read_event write_event
run_loop J holders [] ev was_again task = stuck
run_loop J holders (t ∷ ts) ev was_again task =
    let go_on = λ (read : Bool) (e : Bool) (task' : Task).
      run_loop J holders ts (record ev { reads = read }) e task' in
    let read : Result (Task × Returns) =
      read_event J t was_again task.state task >>= settle go_on in
    let written =
      run_loop J holders ts (record ev { writes = false }) was_again
        (write_event was_again task.messages task) in
    let zmq_off = run_loop J holders ts (record ev { zmq = false }) was_again task in
    if t.live
    then (if ev.reads
        then read
        else (if ev.writes then written else (if ev.zmq then zmq_off else ok (task, kept))))
    else leave holders task

unfoldable pub run : Json → ℕ → List Turn → Events → Task → Result (Task × Returns)
unfolding run_loop
run J holders ts ev task =
    if ev.timeout || ev.kill then ok (task, deleted) else run_loop J holders ts ev false task
