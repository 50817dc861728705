-- ===== src/Provider/Stream/Session.antt =====
-- From the bytes of OpenSSL to the devices: TCPSslRequestStream.cpp under `SslSvrSession::Run`.
use pushserver.Prelude.{
  ℕ, ◌≤◌, ◌<◌, ◌≡◌, ◌⊎◌, inl, inr, refl, ap, ◌∙◌, List, ◌∷◌, ◌++◌, true, false, Bytes, ok, ◌>>=◌,
  length, drop, take, take-append, lt→ltb, bind_known, ◌+◌, All, arith, ◌==◌, Bool-cases, take_then,
  take_else,
}
use pushserver.Json.{Json}
use pushserver.Mqtt.Run.{Events, ZqError, request_arrived, too_big, other, kept}
use pushserver.Tls.{SslError, error_none, want_write, want_read, broken}
use pushserver.Provider.Session.Frames.{Push, stream, IsPush, run_pushes}
use pushserver.Provider.Run.{Turn, Task, reading_request, run}
use pushserver.Provider.Run.Served.{served, run-run_pushes}
use pushserver.Provider.Stream.{RequestStream, stored, terminate, read_request}

-- The round of `Run` in which the stream has said this.
abbrev pub turn_of : RequestStream × ZqError → Turn
turn_of (s, e) = record { live = true; read = e; buffer = s.buffer; n_len = s.offset }

-- The bytes stand at the front of the buffer, and their number is known.
abbrev pub HasRead : Bytes → RequestStream → Type 0
HasRead arrived s = ((slack : Bytes) × (s.buffer ≡ arrived ++ slack)) × (s.offset ≡ length arrived)

terminate-HasRead :
    (arrived : Bytes) (s : RequestStream)
    → HasRead arrived s
    → length arrived < 2048
    → (s' : RequestStream) × (terminate s ≡ ok s') × HasRead arrived s'
terminate-HasRead arrived s ((slack, front), size) fits = elim (Bool-cases s.prints) [
  | inr quiet ↦ (s, take_else _ _ quiet, ((slack, front), size))
  | inl prints ↦
      let rest = 0 ∷ drop (s.offset + 1) s.buffer in
      (
        record s { buffer = take s.offset s.buffer ++ rest },
        take_then _ _ prints ∙ take_then _ _ (lt→ltb s.offset 2048 (omega arith)),
        (
          (
            rest,
            ap (λ b. b ++ rest)
                (ap (λ n. take n s.buffer) size
                  ∙ ap (take (length arrived)) front
                  ∙ take-append arrived slack),
          ),
          size,
        ),
      )
]

-- What the stream makes of bytes that fit, with or without printing.
read_request-HasRead :
    (arrived : Bytes) (s : RequestStream)
    → length arrived ≤ 2047
    → (s' : RequestStream) × (e : ZqError) × (read_request error_none arrived s ≡ ok (s', e))
      × HasRead arrived s'
      × ((e ≡ request_arrived) ⊎ (e ≡ too_big))
unfolding read_request
read_request-HasRead arrived s fits =
    let got = record (stored arrived s) { offset = length arrived } in
    let here : HasRead arrived got = ((drop (length arrived) s.buffer, refl), refl) in
    elim (Bool-cases (length arrived == 2047)) [
      | inl full ↦ (got, too_big, take_then _ _ full, here, inr refl)
      | inr less ↦
          let (s', e, has) = terminate-HasRead arrived got here (omega arith) in
          (s', request_arrived, take_else _ _ less ∙ bind_known _ e, has, inl refl)
    ]

-- Where OpenSSL gives whole push messages for 32-byte tokens, at most 2047 bytes of them, to a live
-- session that waits for a request, in a call of `Run` with a read event and with no timeout and no
-- kill, the request stream reports a request or a full buffer, and the session hands over exactly
-- these messages, in their order, and waits for the next request. Whether the stream prints what it
-- reads makes no difference.
pub read_request-run_pushes :
    (J : Json) (holders : ℕ) (ts : List Turn) (ev : Events) (task : Task) (fs : List Push)
    (s : RequestStream)
    → (ev.timeout ≡ false) × (ev.kill ≡ false) × (ev.reads ≡ true)
    → task.state ≡ reading_request
    → All IsPush fs
    → length (stream fs) ≤ 2047
    → (s' : RequestStream) × (e : ZqError) × (read_request error_none (stream fs) s ≡ ok (s', e))
      × (run J holders (turn_of (s', e) ∷ ts) ev task
          ≡ (run_pushes J fs task.world >>= λ done. ok (served task done, kept)))
read_request-run_pushes J holders ts ev task fs s events waits pushes fits =
    let (s', e, read, ((slack, front), size), said) = read_request-HasRead (stream fs) s fits in
    (
      s',
      e,
      read,
      run-run_pushes J holders (turn_of (s', e)) ts ev task fs slack events waits refl said front
          size pushes (omega arith),
    )

-- While OpenSSL has nothing to read, or the connection is broken, the stream reports an error that
-- is neither of the two that wait for more, so that the session goes on without its read event.
pub read_request_blocked :
    (e : SslError) (arrived : Bytes) (s : RequestStream)
    → (e ≡ want_read) ⊎ (e ≡ broken)
    → (s' : RequestStream) × (read_request e arrived s ≡ ok (s', other)) × (s'.offset ≡ 0)
unfolding read_request
read_request_blocked error_none arrived s h = ground arith
read_request_blocked want_write arrived s h = ground arith
read_request_blocked want_read arrived s h = (_, refl, refl)
read_request_blocked broken arrived s h = (_, refl, refl)
