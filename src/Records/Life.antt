-- ===== src/Records/Life.antt =====
-- The life of the task of ApsLcs.cpp: it is started, queries are requested, and it is woken by its
-- events.
use pushserver.Prelude.{
  ℕ, ◌≤◌, ◌≡◌, ◌≢◌, refl, sym, ap, ◌∙◌, List, [], ◌∷◌, ◌++◌, Bool, true, false, Option, none, some,
  length, All-append_end, Ends-ok, ok, ◌>>=◌, if◌then◌else◌, ◌&&◌, ◌==◌, ==_ne, ==_refl,
  append_assoc, append-nil, bind_known, arith, Ends, Ends-if, Ends-bind, subst, Result, take_then,
  take_else,
}
use mathlib.Core.Path.{ap₂}
use pushserver.Records.{Query, Op, Lcs, request_query, run}
use pushserver.Records.Order.{
  ops_of, ops_at, ops_in, onto, onto-append, IsPool, run_pool-ops_in, run-ops_in,
}
use pushserver.Records.Documents.Queries.{request}

-- The task with its event mask: the kill event and the update event.
pub record Life : Type 0 where
  pub lcs : Lcs
  pub killed : Bool
  pub updated : Bool

-- The constructor: nothing is queued, and no query object is alive.
abbrev pub new_lcs : Life
new_lcs = record {
  lcs = record { started = false; pool = []; heap = λ a. none; ops = [] };
  killed = false;
  updated = false;
}

-- `StartLcs`; its start event asks nothing of `Run`.
unfoldable pub start_lcs : Life → Life
start_lcs t = record t { lcs = record t.lcs { started = true } }

unfoldable pub stop_lcs : Life → Life
stop_lcs t = record t { lcs = record t.lcs { started = false }; killed = true }

-- A new query object at an address is requested, which signals the update event.
unfoldable pub requested : ℕ → Query → Life → Life
unfolding request
requested a q t = record t { lcs = request a q t.lcs; updated = true }

abbrev taken : Lcs × Bool → Result (Life × Bool)
taken (m, gone) = ok (record { lcs = m; killed = false; updated = false }, gone)

-- A call of `Run`, which takes the events; `true` means that the task is deleted.
unfoldable pub wake : ℕ → Life → Result (Life × Bool)
unfolding run
wake fuel t = run t.killed t.updated fuel t.lcs >>= taken

-- The states that the task reaches, with the queries requested so far; a new query object gets an
-- address that has none.
pub data Reaches : List Query → Life → Type 0 where
  here : Reaches [] new_lcs
  starts : {qs : List Query} {t : Life} → Reaches qs t → Reaches qs (start_lcs t)
  stops : {qs : List Query} {t : Life} → Reaches qs t → Reaches qs (stop_lcs t)
  requests :
      {qs : List Query} {t : Life} (a : ℕ) (q : Query)
      → Reaches qs t
      → t.lcs.heap a ≡ none
      → Reaches (qs ++ (q ∷ [])) (requested a q t)
  wakes :
      {qs : List Query} {t u : Life} (fuel : ℕ)
      → Reaches qs t
      → length t.lcs.pool ≤ fuel
      → wake fuel t ≡ ok (u, false)
      → Reaches qs u

-- What queries ask for, in their order.
abbrev pub asked : List Query → List Op
asked [] = []
asked (q ∷ qs) = ops_of q ++ asked qs

asked-append : (qs : List Query) (q : Query) → asked (qs ++ (q ∷ [])) ≡ asked qs ++ ops_of q
asked-append [] q = append-nil (ops_of q)
asked-append (p ∷ qs) q =
    ap (◌++◌ (ops_of p)) (asked-append qs q) ∙ sym (append_assoc (ops_of p) (asked qs) (ops_of q))

module _ (a : ℕ) (q : Query) (heap : ℕ → Option Query) (fresh : heap a ≡ none) where
  abbrev with_query : ℕ → Option Query
  with_query b = if a == b then some q else heap b

  is_other : (b : ℕ) (p : Query) → heap b ≡ some p → a ≢ b
  is_other b p live same = absurd (ground (arith, ap heap same, fresh, live))

  with-IsPool : (pool : List ℕ) → IsPool heap pool → IsPool with_query (pool ++ (a ∷ []))
  with-IsPool [] v = ((q, take_then _ _ (==_refl a)), tt, tt)
  with-IsPool (b ∷ pool) (((p, live), others, v)) = (
    (p, take_else _ _ (==_ne a b (is_other b p live)) ∙ live),
    All-append_end (λ c. b ≢ c) pool a others (λ same. is_other b p live (sym same)),
    with-IsPool pool v,
  )

  with_ops :
      (pool : List ℕ)
      → IsPool heap pool
      → ops_in with_query (pool ++ (a ∷ [])) ≡ ops_in heap pool ++ ops_of q
  unfolding ops_in
  with_ops [] v = ap (λ o. ops_at o ++ []) (take_then _ _ (==_refl a)) ∙ append-nil (ops_of q)
  with_ops (b ∷ pool) (((p, live), others, v)) =
      ap₂ (λ o ops. ops_at o ++ ops) (take_else _ _ (==_ne a b (is_other b p live)))
        (with_ops pool v)
      ∙ sym (append_assoc (ops_at (heap b)) (ops_in heap pool) (ops_of q))

-- The queries that wait are different live objects, and the database has been asked, or is to be
-- asked by those that wait, what was requested.
abbrev IsInOrder : List Query → Lcs → Type 0
IsInOrder qs l = IsPool l.heap l.pool × (onto (ops_in l.heap l.pool) l.ops ≡ onto (asked qs) [])

request-IsInOrder :
    (qs : List Query) (a : ℕ) (q : Query) (l : Lcs)
    → l.heap a ≡ none
    → IsInOrder qs l
    → IsInOrder (qs ++ (q ∷ [])) (request a q l)
unfolding request request_query
request-IsInOrder qs a q l fresh (v, o) = (
  with-IsPool a q l.heap fresh l.pool v,
  ap (λ ops. onto ops l.ops) (with_ops a q l.heap fresh l.pool v)
      ∙ onto-append (ops_in l.heap l.pool) (ops_of q) l.ops
      ∙ ap (onto (ops_of q)) o
      ∙ sym (onto-append (asked qs) (ops_of q) [])
      ∙ ap (λ ops. onto ops []) (sym (asked-append qs q)),
)

-- What a call of `Run` leaves where it keeps the task: that, and nothing that waits, if it was
-- started and updated.
abbrev Leaves : List Query → Lcs → Bool → Lcs × Bool → Type 0
Leaves qs l updated (m, gone) =
    gone ≡ false → IsInOrder qs m × (l.started ≡ true → updated ≡ true → m.pool ≡ [])

run-Leaves :
    (qs : List Query) (fuel : ℕ) (killed updated : Bool) (l : Lcs)
    → length l.pool ≤ fuel
    → IsInOrder qs l
    → Ends (Leaves qs l updated) (run killed updated fuel l)
unfolding run ops_in
run-Leaves qs fuel true updated l enough h = λ gone. absurd (ground (arith, gone))
run-Leaves qs fuel false updated l enough (v, o) =
    Ends-if (Leaves qs l updated) (l.started && updated) _ _
      (λ e.
        let (m, r, empty, ops) = run_pool-ops_in fuel l.pool l refl v enough in
        subst (Ends (Leaves qs l updated)) (sym (bind_known (λ l'. ok (l', false)) r)) (λ gone. (
          (
            subst (IsPool m.heap) (sym empty) tt,
            ap (λ pool. onto (ops_in m.heap pool) m.ops) empty ∙ ops ∙ o,
          ),
          λ s u. empty,
        )))
      (λ e gone. ((v, o), λ s u. absurd (ground (arith, e, s, u))))

wake-Leaves :
    (qs : List Query) (fuel : ℕ) (t : Life)
    → length t.lcs.pool ≤ fuel
    → IsInOrder qs t.lcs
    → Ends (λ done. Leaves qs t.lcs t.updated (done.0.lcs, done.1)) (wake fuel t)
unfolding wake
wake-Leaves qs fuel t enough h =
    Ends-bind (Leaves qs t.lcs t.updated) (λ done. Leaves qs t.lcs t.updated (done.0.lcs, done.1))
      (run t.killed t.updated fuel t.lcs) _ (run-Leaves qs fuel t.killed t.updated t.lcs enough h)
      (λ done left. left)

pub Reaches-IsInOrder : {qs : List Query} {t : Life} → Reaches qs t → IsInOrder qs t.lcs
unfolding ops_in start_lcs stop_lcs requested
Reaches-IsInOrder here = (tt, refl)
Reaches-IsInOrder (starts r) = Reaches-IsInOrder r
Reaches-IsInOrder (stops r) = Reaches-IsInOrder r
Reaches-IsInOrder (requests {qs} {t} a q r fresh) =
    request-IsInOrder qs a q t.lcs fresh (Reaches-IsInOrder r)
Reaches-IsInOrder {qs} (wakes {t} {u} fuel r enough e) =
    (Ends-ok (λ done. Leaves qs t.lcs t.updated (done.0.lcs, done.1)) (wake fuel t) (u, false) e
      (wake-Leaves qs fuel t enough (Reaches-IsInOrder r)) refl).0

-- From its creation, through any starts, any stops, any requests, where a new query object gets an
-- address that has none, be it one that was used before, and any wakes that keep the task, with as
-- much fuel as queries wait: where the task is started and not to be killed, a wake with the update
-- event, with as much fuel as queries wait, returns and keeps the task, nothing waits any longer,
-- and all that the database has been asked for since its creation is what the queries requested
-- until then ask for by their types, each once and in the order of the requests.
pub wake-asked :
    (qs : List Query) (t : Life) (fuel : ℕ)
    → Reaches qs t
    → t.lcs.started ≡ true
    → t.killed ≡ false
    → t.updated ≡ true
    → length t.lcs.pool ≤ fuel
    → (u : Life) × (wake fuel t ≡ ok (u, false))
      × (u.lcs.pool ≡ [])
      × (u.lcs.ops ≡ onto (asked qs) [])
unfolding wake
wake-asked qs t fuel r started alive updated enough =
    let (v, o) = Reaches-IsInOrder r in
    let (m, e, empty, ops) = run-ops_in fuel t.lcs started v enough in
    (
      record { lcs = m; killed = false; updated = false },
      ap₂ (λ k u. run k u fuel t.lcs >>= taken) alive updated ∙ bind_known taken e,
      empty,
      ops ∙ o,
    )
