-- ===== src/Provider/Run/Keeps.antt =====
-- What a run of a provider's session keeps, for any relation of the registry and the devices before
-- and behind that `PacketHandle` has: `Run` of SslSvrSession.cpp.
use pushserver.Prelude.{
  ℕ, List, [], ◌∷◌, Bool, false, ◌||◌, Bytes, Result, Ends, Ends-bind, Ends-weaken, Ends-if, arith,
  ◌≡◌, subst,
}
use pushserver.Json.{Json}
use pushserver.Mqtt.Run.{Events, ZqError, no_error, request_arrived, too_big, again, other, Returns}
use pushserver.Provider.Packet.{ProviderPacket}
use pushserver.Provider.Session.{World, packet_handle, process_loop}
use pushserver.Provider.Session.Keeps.{process_loop-keeps}
use pushserver.Provider.Run.{
  State, reading_request, processing_request, cleaning_up, Turn, Task, Next, returns, goes_on,
  finish_request, process_request, read_request, read_event, write_event, settle, run_loop, run,
}

-- What a round leaves.
abbrev pub task_of : Next → Task
task_of (returns task) = task
task_of (goes_on task read was_again) = task

module _ (J : Json) (R : World → World → Type 0) (R-refl : (w : World) → R w w)
    (R-trans : (u v w : World) → R u v → R v w → R u w)
    (R-handle : (p : ProviderPacket) (w : World) → Ends (R w) (packet_handle J p w)) where
  finish-keeps :
      (was_again : Bool) (task : Task) (w : World) (done : World × ℕ)
      → R w done.0
      → R w (task_of (finish_request was_again task done)).world
  finish-keeps was_again task w (w', rc) h = ground arith

  process-keeps :
      (t : Turn) (was_again : Bool) (task : Task)
      → Ends (λ next. R task.world (task_of next).world) (process_request J t was_again task)
  unfolding process_request
  process-keeps t was_again task =
      Ends-bind (λ done. R task.world done.0) (λ next. R task.world (task_of next).world)
        (process_loop t.n_len J t.buffer t.n_len task.world) _
        (process_loop-keeps J R R-refl R-trans R-handle t.n_len t.buffer t.n_len task.world)
        (λ done h. finish-keeps was_again task task.world done h)

  read-keeps :
      (t : Turn) (e : ZqError) (task : Task)
      → Ends (λ next. R task.world (task_of next).world) (read_request J t e task)
  unfolding read_request
  read-keeps t no_error task = R-refl task.world
  read-keeps t request_arrived task =
      process-keeps t false (record task { state = processing_request })
  read-keeps t too_big task = process-keeps t false (record task { state = cleaning_up })
  read-keeps t again task = R-refl task.world
  read-keeps t other task = R-refl task.world

  event-keeps :
      (t : Turn) (was_again : Bool) (state : State) (task : Task)
      → Ends (λ next. R task.world (task_of next).world) (read_event J t was_again state task)
  unfolding read_event
  event-keeps t was_again reading_request task = read-keeps t t.read task
  event-keeps t was_again processing_request task = process-keeps t was_again task
  event-keeps t was_again cleaning_up task = R-refl task.world

  write-world :
      (was_again : Bool) (messages : List Bytes) (task : Task)
      → (write_event was_again messages task).world ≡ task.world
  unfolding write_event
  write-world was_again messages task = ground arith

  abbrev Kept : World → Task × Returns → Type 0
  Kept w done = R w done.0.world

  -- Behind a round.
  settle-keeps :
      (w : World) (go_on : Bool → Bool → Task → Result (Task × Returns)) (next : Next)
      → R w (task_of next).world
      → ((read was_again : Bool) (task : Task) → Ends (Kept task.world) (go_on read was_again task))
      → Ends (Kept w) (settle go_on next)
  settle-keeps w go_on (returns task) h k = h
  settle-keeps w go_on (goes_on task read was_again) h k =
      Ends-weaken (Kept task.world) (Kept w) (go_on read was_again task) (k read was_again task)
        (λ done r. R-trans w task.world done.0.world h r)

  written :
      (was_again : Bool) (task : Task) (m : Result (Task × Returns))
      → Ends (Kept (write_event was_again task.messages task).world) m
      → Ends (Kept task.world) m
  written was_again task m h =
      subst (λ w. Ends (Kept w) m) (write-world was_again task.messages task) h

  loop-keeps :
      (holders : ℕ) (ts : List Turn) (ev : Events) (was_again : Bool) (task : Task)
      → Ends (Kept task.world) (run_loop J holders ts ev was_again task)
  unfolding run_loop
  loop-keeps holders [] ev was_again task = tt
  loop-keeps holders (t ∷ ts) ev was_again task =
      Ends-if (Kept task.world) t.live _ _
        (λ e.
          Ends-if (Kept task.world) ev.reads _ _
            (λ e.
              Ends-bind (λ next. R task.world (task_of next).world) (Kept task.world)
                (read_event J t was_again task.state task) _
                (event-keeps t was_again task.state task)
                (λ next h.
                  settle-keeps task.world _ next h
                    (λ read e task'. loop-keeps holders ts (record ev { reads = read }) e task')))
            (λ e.
              Ends-if (Kept task.world) ev.writes _ _
                (λ e. written was_again task _ (
                  loop-keeps holders ts (record ev { writes = false }) was_again
                    (write_event was_again task.messages task)))
                (λ e.
                  Ends-if (Kept task.world) ev.zmq _ _
                    (λ e. loop-keeps holders ts (record ev { zmq = false }) was_again task)
                    (λ e. R-refl task.world))))
        (λ e. R-refl task.world)

  pub run-keeps :
      (holders : ℕ) (ts : List Turn) (ev : Events) (task : Task)
      → Ends (Kept task.world) (run J holders ts ev task)
  unfolding run
  run-keeps holders ts ev task =
      Ends-if (Kept task.world) (ev.timeout || ev.kill) _ _ (λ e. R-refl task.world)
        (λ e. loop-keeps holders ts ev false task)
