-- ===== src/Tls/Owned.antt =====
-- Who frees the objects of OpenSSL: SslTcpSocket.cpp.
use pushserver.Prelude.{
  ℕ, ◌≤◌, ◌≡◌, refl, ap, ◌∙◌, List, [], ◌∷◌, Bool, true, false, Option, none, some, Bytes, Result,
  ok, overrun, ◌>>=◌, ==_refl, le→ltb, if◌then◌else◌, arith, bind_known, take_then, take_else,
  length-take_le,
}
use pushserver.Tls.{
  Answers, SslError, error_none, want_write, want_read, broken, not_connected, Socket, free,
  free_pointer, reset, establish, initialized, connect_status, connect, use_ssl, send, read,
  after_send, after_read, fits,
}

abbrev pub pointed : Option ℕ → List ℕ
pointed none = []
pointed (some a) = a ∷ []

-- A connected socket has a TLS object.
abbrev pub HasSsl : Bool → Option ℕ → Type 0
HasSsl false o = Unit
HasSsl true none = ⊥
HasSsl true (some a) = Unit

-- The live objects are those that the socket points to.
pub record IsHeld (s : Socket) : Type 0 where
  pub contexts : s.live_contexts ≡ pointed s.context
  pub ssls : s.live_ssl ≡ pointed s.ssl

-- And it has a TLS object if it is connected.
pub record IsOwned (s : Socket) : Type 0 where
  pub contexts : s.live_contexts ≡ pointed s.context
  pub ssls : s.live_ssl ≡ pointed s.ssl
  pub usable : HasSsl s.connected s.ssl

free_pointer-pointed : (o : Option ℕ) → free_pointer o (pointed o) ≡ ok []
unfolding free_pointer free
free_pointer-pointed none = refl
free_pointer-pointed (some a) = take_then _ _ (==_refl a)

abbrev pub cleared : Socket → Socket
cleared s = record s { ssl = none; context = none; live_ssl = []; live_contexts = [] }

pub reset-cleared : (s : Socket) → IsHeld s → reset s ≡ ok (cleared s)
unfolding reset
reset-cleared s v =
    bind_known _ (ap (free_pointer s.ssl) (v.ssls) ∙ free_pointer-pointed s.ssl)
    ∙ bind_known _ (ap (free_pointer s.context) (v.contexts) ∙ free_pointer-pointed s.context)

establish-IsHeld :
    (answers : Answers) (o : Option ℕ) (s : Socket) → IsHeld (establish answers o (cleared s)).0
unfolding establish
establish-IsHeld answers none s = record { contexts = refl; ssls = refl }
establish-IsHeld answers (some a) s = ground arith

-- A call returns, and what it returns has the property.
abbrev pub Returns : {A : Type 0} → (A → Type 0) → Result A → Type 0
Returns {A} P m = (a : A) × (m ≡ ok a) × P a

connect_status-IsHeld : (p : Socket × Bool) → IsHeld p.0 → IsHeld (connect_status (initialized p)).0
connect_status-IsHeld (s, true) v = record { contexts = v.contexts; ssls = v.ssls }
connect_status-IsHeld (s, false) v = v

pub connect-IsHeld :
    (answers : Answers) (s : Socket) → IsHeld s → Returns (λ p. IsHeld p.0) (connect answers s)
unfolding connect
connect-IsHeld answers s v =
    let made = establish answers answers.new_context (cleared s) in
    (
      connect_status (initialized made),
      ap
          (λ m.
            ((m >>= λ t. ok (establish answers answers.new_context t)) >>= λ p. ok (initialized p))
            >>= λ p. ok (connect_status p))
          (reset-cleared s v),
      connect_status-IsHeld made (establish-IsHeld answers answers.new_context s),
    )

module _ {A : Type 0} (m : Result A) where
  use_ssl-pointed :
      (c : Bool) (o : Option ℕ) (live : List ℕ)
      → c ≡ true
      → HasSsl c o
      → live ≡ pointed o
      → use_ssl o live m ≡ m
  use_ssl-pointed true none live up h e = elim h [ ]
  use_ssl-pointed true (some a) live up h e =
      ap (λ l. use_ssl (some a) l m) e
      ∙ ap (λ b. if (if b then true else false) then m else overrun) (==_refl a)
  use_ssl-pointed false o live up h e = cc

  -- An operation on a connected socket reaches its TLS object.
  pub use_ssl-IsOwned :
      (s : Socket) → IsOwned s → s.connected ≡ true → use_ssl s.ssl s.live_ssl m ≡ m
  use_ssl-IsOwned s v up = use_ssl-pointed s.connected s.ssl s.live_ssl up (v.usable) (v.ssls)

-- What a call does that uses the TLS object of a connected socket: with the flag, but without the
-- object, it uses NULL.
abbrev pub Uses : {A : Type 0} → Bool → Option ℕ → (A → Type 0) → Result A → Type 0
Uses true none P m = m ≡ overrun
Uses true (some a) P m = Returns P m
Uses false o P m = Returns P m

use_ssl_live :
    {A : Type 0} (m : Result A) (a : ℕ) (live : List ℕ)
    → live ≡ pointed (some a)
    → use_ssl (some a) live m ≡ m
use_ssl_live m a live e =
    ap (λ l. use_ssl (some a) l m) e
    ∙ ap (λ b. if (if b then true else false) then m else overrun) (==_refl a)

-- By the flag and the pointer.
Uses-use_ssl :
    {A : Type 0} (P : A → Type 0) (c : Bool) (o : Option ℕ) (live : List ℕ) (m other : Result A)
    → live ≡ pointed o
    → Returns P m
    → Returns P other
    → Uses c o P (if c then use_ssl o live m else other)
Uses-use_ssl P true none live m other e used off = refl
Uses-use_ssl P true (some a) live m other e (x, is, h) off = (x, use_ssl_live m a live e ∙ is, h)
Uses-use_ssl P false o live m other e used off = off

module _ (s : Socket) (v : IsHeld s) where
  dropped-IsHeld : IsHeld (record s { connected = false })
  dropped-IsHeld = record { contexts = v.contexts; ssls = v.ssls }

  after_send-IsHeld : (e : SslError) (bytes : Bytes) → IsHeld (after_send e bytes s).0
  after_send-IsHeld error_none bytes = record { contexts = v.contexts; ssls = v.ssls }
  after_send-IsHeld want_write bytes = v
  after_send-IsHeld want_read bytes = dropped-IsHeld
  after_send-IsHeld broken bytes = dropped-IsHeld

  pub send-Uses :
      (e : SslError) (bytes : Bytes) → Uses s.connected s.ssl (λ p. IsHeld p.0) (send e bytes s)
  unfolding send
  send-Uses e bytes =
      Uses-use_ssl (λ p. IsHeld p.0) s.connected s.ssl s.live_ssl _ _ v.ssls
        (after_send e bytes s, refl, after_send-IsHeld e bytes) ((s, not_connected), refl, v)

  after_read-IsHeld : (e : SslError) (bytes : Bytes) → IsHeld (after_read e bytes s).0
  after_read-IsHeld error_none bytes = v
  after_read-IsHeld want_read bytes = v
  after_read-IsHeld want_write bytes = dropped-IsHeld
  after_read-IsHeld broken bytes = dropped-IsHeld

  fits_seven :
      (e : SslError) (arrived : Bytes) (room : ℕ)
      → 7 ≤ room
      → fits room (after_read e arrived s) ≡ ok (after_read e arrived s)
  fits_seven error_none arrived room h =
      take_else _ _ (le→ltb room _ (omega (arith, length-take_le 7 arrived)))
  fits_seven want_read arrived room h = take_else _ _ (le→ltb room 0 (omega arith))
  fits_seven want_write arrived room h = take_else _ _ (le→ltb room 0 (omega arith))
  fits_seven broken arrived room h = take_else _ _ (le→ltb room 0 (omega arith))

  pub read-Uses :
      (e : SslError) (arrived : Bytes) (room : ℕ)
      → 7 ≤ room
      → Uses s.connected s.ssl (λ p. IsHeld p.0) (read e arrived room s)
  unfolding read
  read-Uses e arrived room h =
      Uses-use_ssl (λ p. IsHeld p.0) s.connected s.ssl s.live_ssl _ _ v.ssls
        (after_read e arrived s, fits_seven e arrived room h, after_read-IsHeld e arrived)
        ((s, not_connected, []), refl, v)
