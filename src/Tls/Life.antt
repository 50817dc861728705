-- ===== src/Tls/Life.antt =====
-- The life of the TLS socket as a step relation: SslTcpSocket.cpp.
use pushserver.Prelude.{
  ℕ, ◌≤◌, ◌≡◌, sym, ap, ◌∙◌, subst, Bool, true, false, Option, none, some, [], Bytes, Result, ok,
  ok_inj,
}
use pushserver.Tls.{Answers, SslError, OsError, Socket, reset, connect, send, read}
use pushserver.Tls.Owned.{
  pointed, IsHeld, Returns, Uses, cleared, reset-cleared, connect-IsHeld, send-Uses, read-Uses,
}

-- The life of a socket: its construction, and any connections, sends and reads that return, whatever
-- OpenSSL, the resolver and TCP answer.
pub data Reaches : Socket → Type 0 where
  starts :
      {s : Socket}
      → s.context ≡ none
      → s.ssl ≡ none
      → s.connected ≡ false
      → s.live_contexts ≡ []
      → s.live_ssl ≡ []
      → Reaches s
  connects :
      (answers : Answers) (s : Socket) {s' : Socket} {r : OsError}
      → Reaches s
      → connect answers s ≡ ok (s', r)
      → Reaches s'
  sends :
      (e : SslError) (bytes : Bytes) (s : Socket) {s' : Socket} {r : OsError}
      → Reaches s
      → send e bytes s ≡ ok (s', r)
      → Reaches s'
  reads :
      (e : SslError) (arrived : Bytes) (room : ℕ) (s : Socket) {s' : Socket} {r : OsError}
      {bytes : Bytes}
      → Reaches s
      → 7 ≤ room
      → read e arrived room s ≡ ok (s', r, bytes)
      → Reaches s'

Returns-eq : {A : Type 0} (P : A → Type 0) (m : Result A) (a : A) → Returns P m → m ≡ ok a → P a
Returns-eq P m a (b, e, h) e' = subst P (ok_inj b a (sym e ∙ e')) h

-- A call that has returned did not use NULL.
Uses-eq :
    {A : Type 0} (P : A → Type 0) (c : Bool) (o : Option ℕ) (m : Result A) (a : A)
    → Uses c o P m
    → m ≡ ok a
    → P a
Uses-eq P true none m a used e = cc
Uses-eq P true (some b) m a used e = Returns-eq P m a used e
Uses-eq P false o m a used e = Returns-eq P m a used e

Reaches-IsHeld : (s : Socket) → Reaches s → IsHeld s
Reaches-IsHeld s (starts a b c d e) = record {
  contexts = d ∙ ap pointed (sym a);
  ssls = e ∙ ap pointed (sym b);
}
Reaches-IsHeld s (connects answers t before e) =
    Returns-eq (λ p. IsHeld p.0) _ _ (connect-IsHeld answers t (Reaches-IsHeld t before)) e
Reaches-IsHeld s (sends e bytes t before h) =
    Uses-eq (λ p. IsHeld p.0) t.connected t.ssl _ _ (send-Uses t (Reaches-IsHeld t before) e bytes)
      h
Reaches-IsHeld s (reads e arrived room t before roomy h) =
    Uses-eq (λ p. IsHeld p.0) t.connected t.ssl _ _
      (read-Uses t (Reaches-IsHeld t before) e arrived room roomy) h

-- A socket that has been constructed, then connected any number of times, whatever OpenSSL, the
-- resolver and TCP answer, and sent to and read from at will, into buffers of 7 bytes or more, as
-- long as these calls return: the live objects of OpenSSL are those that it points to. Closing it
-- frees all of them, once, and a next connection returns and leaves such a socket. So do a next
-- send and a next read, except where the flag kConnected is set and there is no TLS object, as a
-- connection leaves it for which SSL_new returns NULL: there they use NULL.
pub Reaches-owns :
    (s : Socket)
    → Reaches s
    → IsHeld s
      × (reset s ≡ ok (cleared s))
      × ((answers : Answers) → Returns (λ p. IsHeld p.0) (connect answers s))
      × ((e : SslError) (bytes : Bytes) → Uses s.connected s.ssl (λ p. IsHeld p.0) (send e bytes s))
      × ((e : SslError) (arrived : Bytes) (room : ℕ)
          → 7 ≤ room
          → Uses s.connected s.ssl (λ p. IsHeld p.0) (read e arrived room s))
Reaches-owns s h =
    let v = Reaches-IsHeld s h in
    (v, reset-cleared s v, λ answers. connect-IsHeld answers s v, send-Uses s v, read-Uses s v)
