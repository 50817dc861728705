-- ===== src/System/Steps.antt =====
-- What holds of the sessions and the registry in every state that the server reaches.
use pushserver.Prelude.{
  ℕ, List, ◌∷◌, ◌++◌, Option, ◌≡◌, ◌≢◌, ◌⊎◌, refl, sym, ap, ◌∙◌, inl, inr, some, none, Bytes, ok,
  Ends, Ends-bind, Ends-ok, ==_refl, take_then, subst,
}
use mathlib.Core.Option.{some-injective}
use pushserver.Json.{Json}
use pushserver.Mqtt.Packet.{init_new}
use pushserver.Mqtt.Registry.{find_mqtt_session}
use pushserver.Mqtt.Session.{Session}
use pushserver.Mqtt.Run.{Turn, Events, Returns, deleted, kept, run}
use pushserver.Mqtt.Run.Keeps.{run-keeps}
use pushserver.Provider.Packet.{ProviderPacket}
use pushserver.Provider.Session.{World, store, packet_handle}
use pushserver.System.{
  forget, after_run, run_device, Step, accepts, runs, pushes, Reaches, here, next, lost, deletes,
  deleted_at, IsIn, start,
}
use pushserver.System.Invariant.{
  IsNamed, IsRight, IsBacked, Inv, InvBut, store-Inv, forget-Inv, start-Inv, accept-Inv,
}
use pushserver.System.Delivers.{Delivers, packet_handle-Delivers}
use pushserver.System.Owners.{Keeps, Keeps-trans, Keeps-core, packet_handle-Keeps}

-- Another object may have been deleted since.
older-IsRight :
    (gone : List ℕ) (a b : ℕ) (s : Session) (w w' : World)
    → (IsNamed w b s → IsNamed w' b s)
    → IsRight gone w b s
    → IsRight (a ∷ gone) w' b s
older-IsRight gone a b s w w' names (self, inl named) = (self, inl (names named))
older-IsRight gone a b s w w' names (self, inr old) = (self, inr (inr old))

older-IsBacked :
    (gone : List ℕ) (a b : ℕ) (o : Option Session) → IsBacked gone b o → IsBacked (a ∷ gone) b o
older-IsBacked gone a b none old = inr old
older-IsBacked gone a b (some s) old = tt

module _ (gone : List ℕ) (a : ℕ) (s s' : Session) (w : World) (here_right : IsRight gone w a s)
    (k : Keeps (record s { registry = w.registry }) s') (inv : Inv gone w) where
  was :
      (token : Bytes) (b : ℕ)
      → a ≢ b
      → find_mqtt_session token s'.registry ≡ some b
      → find_mqtt_session token w.registry ≡ some b
  was token b n e = k.others token b e (λ same. n (sym (same ∙ here_right.0)))

  kept_but : InvBut a gone (record w { registry = s'.registry })
  kept_but = record {
    right = λ b t n live.
        let (self, named) = inv.right b t live in
        (
          self,
          elim named [
            | inl named ↦ inl (λ token e. named token (was token b n e))
            | inr old ↦ inr old
          ],
        );
    backed = λ token b n e. inv.backed token b (was token b n e);
  }

  deleted_but : InvBut a (a ∷ gone) (record w { registry = s'.registry })
  deleted_but = record {
    right = λ b t n live.
        older-IsRight gone a b t w (record w { registry = s'.registry })
          (λ named token e. named token (was token b n e)) (inv.right b t live);
    backed = λ token b n e.
        older-IsBacked gone a b (w.sessions b) (inv.backed token b (was token b n e));
  }

  kept-IsRight : IsRight gone (record w { registry = s'.registry }) a s'
  kept-IsRight = (
    k.self_same ∙ here_right.0,
    elim here_right.1 [
      | inl named ↦ inl (λ token e.
          k.owns (λ t found. named t (found ∙ ap some here_right.0)) token
            (e ∙ ap some (sym (k.self_same ∙ here_right.0))))
      | inr old ↦ inr old
    ],
  )

  after_run-Inv :
      (r : Returns)
      → Inv (lost a ((after_run a w (s', r)).sessions a) ++ gone) (after_run a w (s', r))
  unfolding after_run
  after_run-Inv deleted =
      subst (λ o. Inv (lost a o ++ gone) (forget a (record w { registry = s'.registry })))
        (sym (take_then none (w.sessions a) (==_refl a)))
        (forget-Inv (a ∷ gone) a (record w { registry = s'.registry }) (inl refl) deleted_but)
  after_run-Inv kept =
      subst (λ o. Inv (lost a o ++ gone) (store a s' (record w { registry = s'.registry })))
        (sym (take_then (some s') (w.sessions a) (==_refl a)))
        (store-Inv gone a (record w { registry = s'.registry }) s' kept-IsRight kept_but)

run-Inv :
    (J : Json) (gone : List ℕ) (holders : ℕ) (ts : List Turn) (ev : Events) (a : ℕ) (s : Session)
    (w : World)
    → w.sessions a ≡ some s
    → Inv gone w
    → Ends (λ w'. Inv (lost a (w'.sessions a) ++ gone) w') (run_device J holders ts ev a s w)
unfolding run_device
run-Inv J gone holders ts ev a s w live inv =
    Ends-bind (λ done. Keeps (record s { registry = w.registry }) done.0)
      (λ w'. Inv (lost a (w'.sessions a) ++ gone) w')
      (run J holders ts ev (record s { registry = w.registry })) _
      (run-keeps J Keeps Keeps-trans Keeps-core (packet_handle-Keeps J) holders ts ev
        (record s { registry = w.registry }))
      (λ done k. after_run-Inv gone a s done.0 w (inv.right a s live) k inv done.1)

pub Delivers-Inv :
    (gone : List ℕ) (token : Bytes) (w w' : World) → Delivers token w w' → Inv gone w → Inv gone w'
Delivers-Inv gone token w w' (same, sessions) inv = record {
  right = λ b s e. elim (sessions b) [
    | inl still ↦
        let (self, named) = inv.right b s (sym still ∙ e) in
        (
          self,
          elim named [
            | inl named ↦ inl (λ t found. named t (ap (find_mqtt_session t) (sym same) ∙ found))
            | inr old ↦ inr old
          ],
        )
    | inr (d, d', found, before, now, (self, status, id, registry)) ↦
        let d'=s : d' ≡ s = some-injective d' s (sym now ∙ e) in
        let (self', named) = inv.right b d before in
        subst (λ u. IsRight gone w' b u) d'=s
          (
            self ∙ self',
            elim named [
              | inl named ↦ inl (λ t found'.
                  let (old, has) = named t (ap (find_mqtt_session t) (sym same) ∙ found') in
                  (λ new. old (sym status ∙ new), id ∙ has))
              | inr old ↦ inr old
            ],
          )
  ];
  backed = λ t b e.
      let before = inv.backed t b (ap (find_mqtt_session t) (sym same) ∙ e) in
      elim (sessions b) [
        | inl still ↦ subst (IsBacked gone b) (sym still) before
        | inr (d, d', found, was_d, now, core) ↦ subst (IsBacked gone b) (sym now) tt
      ];
}

Step-Inv :
    {J : Json} {w w' : World} (gone : List ℕ) (st : Step J w w')
    → Inv gone w
    → Inv (deletes st ++ gone) w'
Step-Inv {J} {w} {w'} gone (accepts a memory free e) inv =
    subst (Inv gone) (sym e) (accept-Inv gone a memory w free inv)
Step-Inv {J} {w} {w'} gone (runs holders ts ev a s live e) inv =
    Ends-ok (λ w'. Inv (lost a (w'.sessions a) ++ gone) w') (run_device J holders ts ev a s w) w' e
      (run-Inv J gone holders ts ev a s w live inv)
Step-Inv {J} {w} {w'} gone (pushes p e) inv =
    Delivers-Inv gone p.token w w'
      (Ends-ok (Delivers p.token w) (packet_handle J p w) w' e (packet_handle-Delivers J p w)) inv

Reaches-Inv : {J : Json} {w : World} (r : Reaches J start w) → Inv (deleted_at r) w
Reaches-Inv here = start-Inv
Reaches-Inv (next r st) = Step-Inv (deleted_at r) st (Reaches-Inv r)

-- From the start of the server, through any devices that connect, where a new session object gets
-- any address that has none, be it one that was used before, any calls of their `Run` that return,
-- whatever arrives, and any push messages that are handled: a push message that is then handled
-- changes no session object but the one that the registry has for its token, and this one is no
-- longer new and has this token, or it is at an address at which an object was deleted before.
pub Reaches-packet_handle :
    (J : Json) (w w' : World) (reached : Reaches J start w) (p : ProviderPacket)
    → packet_handle J p w ≡ ok w'
    → (b : ℕ)
    → (w'.sessions b ≡ w.sessions b)
      ⊎ ((d : Session) × (w.sessions b ≡ some d)
          × (find_mqtt_session p.token w.registry ≡ some b)
          × (((d.status ≢ init_new) × (d.client_id ≡ p.token)) ⊎ IsIn b (deleted_at reached)))
Reaches-packet_handle J w w' reached p e b =
    elim ((Ends-ok (Delivers p.token w) (packet_handle J p w) w' e (packet_handle-Delivers J p w)).1
      b) [
        | inl still ↦ inl still
        | inr (d, d', found, before, now, core) ↦ inr (
          d,
          before,
          found,
          elim ((Reaches-Inv reached).right b d before).1 [
            | inl named ↦ inl (named p.token found)
            | inr old ↦ inr old
          ],
        )
      ]
