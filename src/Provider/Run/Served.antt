-- ===== src/Provider/Run/Served.antt =====
-- What a call of `SslSvrSession::Run` serves.
use pushserver.Prelude.{
  ℕ, ◌^◌, ◌<◌, ◌≡◌, refl, ap, ◌∙◌, List, [], ◌∷◌, ◌++◌, Bool, true, false, Bytes, Result, ok, stuck,
  thrown, overrun, ◌>>=◌, All, arith, length, Ends, Ends-bind, Ends-any, ok-bind, ◌⊎◌, inl, inr,
}
use mathlib.Core.Path.{ap₂}
use pushserver.Json.{Json}
use pushserver.Mqtt.Run.{Events, request_arrived, too_big, Returns, kept}
use pushserver.Provider.Session.{World, packet_handle, process_loop}
use pushserver.Provider.Session.Frames.{Push, stream, IsPush, packet_of, run_pushes}
use pushserver.Provider.Session.Loop.{process_loop-run_pushes}
use pushserver.Provider.Run.{
  reading_request, processing_request, cleaning_up, Turn, Task, returns, settle, finish_request,
  process_request, read_request, read_event, run_loop, run,
}

-- A buffer that was overfilled is served like a request that has arrived, where the session waits
-- for one.
pub read_event-too_big :
    (J : Json) (t : Turn) (was_again : Bool) (task : Task)
    → read_event J (record t { read = too_big }) was_again reading_request task
      ≡ read_event J (record t { read = request_arrived }) was_again reading_request task
unfolding read_event read_request process_request
read_event-too_big J t was_again task = refl

-- The messages are all served without an error code.
run_pushes-success :
    (J : Json) (fs : List Push) (w : World) → Ends (λ done. done.1 ≡ 0) (run_pushes J fs w)
unfolding run_pushes
run_pushes-success J [] w = refl
run_pushes-success J (f ∷ fs) w =
    Ends-bind (λ w'. Unit) (λ done. done.1 ≡ 0) (packet_handle J (packet_of f) w) _
      (Ends-any (λ w'. Unit) _ (λ w'. tt)) (λ w' h. run_pushes-success J fs w')

-- The task once the messages are served.
abbrev pub served : Task → World × ℕ → Task
served task done = record task { state = reading_request; world = done.0 }

finish_success :
    (e : Bool) (task : Task) (m : Result (World × ℕ))
    → Ends (λ done. done.1 ≡ 0) m
    → (m >>= λ done. ok (finish_request e task done))
      ≡ (m >>= λ done. ok (returns (served task done)))
finish_success e task (ok (w, rc)) h = rw h refl
finish_success e task thrown h = refl
finish_success e task overrun h = refl
finish_success e task stuck h = refl

module _ (J : Json) (t : Turn) (fs : List Push) (slack : Bytes)
    (bytes : t.buffer ≡ stream fs ++ slack) (n_len : t.n_len ≡ length (stream fs))
    (pushes : All IsPush fs) (small : length (stream fs) < 2 ^ 32) where
  loop_served : (w : World) → process_loop t.n_len J t.buffer t.n_len w ≡ run_pushes J fs w
  loop_served w =
      ap₂ (λ n b. process_loop n J b n w) n_len bytes
      ∙ process_loop-run_pushes J (length (stream fs)) fs slack w pushes small (omega arith)

  process_served :
      (e : Bool) (task : Task)
      → process_request J t e task
        ≡ (run_pushes J fs task.world >>= λ done. ok (returns (served task done)))
  unfolding process_request
  process_served e task =
      ap (λ m. m >>= λ done. ok (finish_request e task done)) (loop_served task.world)
      ∙ finish_success e task (run_pushes J fs task.world) (run_pushes-success J fs task.world)

  read_served :
      (task : Task)
      → (t.read ≡ request_arrived) ⊎ (t.read ≡ too_big)
      → read_event J t false reading_request task
        ≡ (run_pushes J fs task.world >>= λ done. ok (returns (served task done)))
  unfolding read_event read_request
  read_served task (inl e) =
      ap (λ r. read_request J t r task) e
      ∙ process_served false (record task { state = processing_request })
  read_served task (inr e) =
      ap (λ r. read_request J t r task) e
      ∙ process_served false (record task { state = cleaning_up })

  settle-served :
      (task : Task) (go_on : Bool → Bool → Task → Result (Task × Returns))
      → (t.read ≡ request_arrived) ⊎ (t.read ≡ too_big)
      → task.state ≡ reading_request
      → (read_event J t false task.state task >>= settle go_on)
        ≡ (run_pushes J fs task.world >>= λ done. ok (served task done, kept))
  settle-served task go_on arrived waits =
      ap (λ st. read_event J t false st task >>= settle go_on) waits
      ∙ ap (λ m. m >>= settle go_on) (read_served task arrived)
      ∙ ok-bind (run_pushes J fs task.world) (λ done. returns (served task done)) (settle go_on)

-- A call of `Run` for a read event alone or with others, but with no timeout and no kill, on a live
-- session that waits for a request: where whole push messages for 32-byte tokens have arrived, less
-- than 2^32 bytes in all, with or without a full buffer, exactly these are handed over, in their
-- order, and the session is kept and waits for the next request.
pub run-run_pushes :
    (J : Json) (holders : ℕ) (t : Turn) (ts : List Turn) (ev : Events) (task : Task)
    (fs : List Push) (slack : Bytes)
    → (ev.timeout ≡ false) × (ev.kill ≡ false) × (ev.reads ≡ true)
    → task.state ≡ reading_request
    → t.live ≡ true
    → (t.read ≡ request_arrived) ⊎ (t.read ≡ too_big)
    → t.buffer ≡ stream fs ++ slack
    → t.n_len ≡ length (stream fs)
    → All IsPush fs
    → length (stream fs) < 2 ^ 32
    → run J holders (t ∷ ts) ev task
      ≡ (run_pushes J fs task.world >>= λ done. ok (served task done, kept))
unfolding run run_loop
run-run_pushes J holders t ts ev task fs slack events waits live arrived bytes n_len pushes small =
    rw (events.0, events.1, live, events.2)
      (settle-served J t fs slack bytes n_len pushes small task _ arrived waits)
