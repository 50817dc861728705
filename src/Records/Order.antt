-- ===== src/Records/Order.antt =====
-- The order in which the queries of ApsLcs.cpp are performed.
use pushserver.Prelude.{
  ◌>>=◌, false, ℕ, zero, suc, ◌≤◌, ◌≡◌, ◌≢◌, refl, sym, ap, ◌∙◌, List, [], ◌∷◌, ◌++◌, true, false,
  Option, none, some, Bytes, codes, strcmp_eq, bytes_eq, c_str, ◌&&◌, ok, ◌==◌, ==_ne, ==_refl,
  if◌then◌else◌, All, arith, length, bind_known,
}
use pushserver.Records.{
  Query, Op, adds, removes, updates, finds, notifies, Lcs, process_excute, process_query, first,
  process, remove, free, serve, run_pool, run,
}

-- What a query asks for, by its type alone, oldest first.
unfoldable pub ops_of : Query → List Op
ops_of q =
    if strcmp_eq q.type (codes "Add")
    then adds q.collection q.update ∷ []
    else (if strcmp_eq q.type (codes "Remove")
        then removes q.collection q.update ∷ []
        else (if strcmp_eq q.type (codes "Update")
            then updates q.collection q.query q.update ∷ []
            else (if strcmp_eq q.type (codes "Find")
                then finds q.collection q.query ∷ notifies q.wrapper ∷ []
                else [])))

-- The operations onto those done before, which are the newest first.
abbrev pub onto : List Op → List Op → List Op
onto [] ops = ops
onto (op ∷ more) ops = onto more (op ∷ ops)

-- A type has the first character of the name that it equals.
other_first : (t : Bytes) (c : ℕ) (cs : Bytes) → first t ≢ suc c → strcmp_eq t (suc c ∷ cs) ≡ false
other_first [] c cs h = refl
other_first (zero ∷ bs) c cs h = refl
other_first (suc b ∷ bs) c cs h =
    ap (λ e. e && bytes_eq (c_str bs) (c_str cs)) (==_ne (suc b) (suc c) h)

process-ops_of : (q : Query) (l : Lcs) → process q l ≡ record l { ops = onto (ops_of q) l.ops }
unfolding process process_excute process_query ops_of
process-ops_of q l =
    let add = other_first q.type 64 (codes "dd") in
    let find = other_first q.type 69 (codes "ind") in
    let remove' = other_first q.type 81 (codes "emove") in
    let update = other_first q.type 84 (codes "pdate") in ground (arith, add, find, remove', update)

-- The queries in the pool are different live objects.
abbrev pub IsPool : (ℕ → Option Query) → List ℕ → Type 0
IsPool heap [] = Unit
IsPool heap (a ∷ pool) =
    ((q : Query) × (heap a ≡ some q)) × All (λ b. a ≢ b) pool × IsPool heap pool

-- What the pool's queries ask for, in their order.
abbrev pub ops_at : Option Query → List Op
ops_at none = []
ops_at (some q) = ops_of q

unfoldable pub ops_in : (ℕ → Option Query) → List ℕ → List Op
ops_in heap [] = []
ops_in heap (a ∷ pool) = ops_at (heap a) ++ ops_in heap pool

pub onto-append : (xs ys ops : List Op) → onto (xs ++ ys) ops ≡ onto ys (onto xs ops)
onto-append [] ys ops = refl
onto-append (x ∷ xs) ys ops = onto-append xs ys (x ∷ ops)

remove_others : (a : ℕ) (pool : List ℕ) → All (λ b. a ≢ b) pool → remove a pool ≡ pool
unfolding remove
remove_others a [] h = refl
remove_others a (b ∷ pool) h = rw (==_ne a b h.0) (ap (◌∷◌ b) (remove_others a pool h.1))

remove_front : (a : ℕ) (pool : List ℕ) → All (λ b. a ≢ b) pool → remove a (a ∷ pool) ≡ pool
unfolding remove
remove_front a pool h = rw (==_refl a) (remove_others a pool h)

-- The heap without one object.
abbrev without : ℕ → (ℕ → Option Query) → ℕ → Option Query
without a heap b = if a == b then none else heap b

module _ (a : ℕ) (heap : ℕ → Option Query) where
  without-IsPool :
      (pool : List ℕ) → All (λ b. a ≢ b) pool → IsPool heap pool → IsPool (without a heap) pool
  without-IsPool [] h v = tt
  without-IsPool (b ∷ pool) h v =
      ((v.0.0, rw (==_ne a b h.0) (v.0.1)), v.1, without-IsPool pool h.1 v.2)

  without_ops :
      (pool : List ℕ) → All (λ b. a ≢ b) pool → ops_in (without a heap) pool ≡ ops_in heap pool
  unfolding ops_in
  without_ops [] h = refl
  without_ops (b ∷ pool) h =
      rw (==_ne a b h.0) (ap (λ ops. ops_at (heap b) ++ ops) (without_ops pool h.1))

-- One round on a live query that is in the pool once.
abbrev served : ℕ → Query → List ℕ → Lcs → Lcs
served a q pool l = record l { pool = pool; heap = without a l.heap; ops = onto (ops_of q) l.ops }

serve-served :
    (a : ℕ) (q : Query) (pool : List ℕ) (l : Lcs)
    → l.heap a ≡ some q
    → l.pool ≡ a ∷ pool
    → All (λ b. a ≢ b) pool
    → serve a (l.heap a) l ≡ ok (served a q pool l)
unfolding serve
serve-served a q pool l live front others =
    ap (λ o. serve a o l) live
    ∙ ap (λ l'. ok (free a (record l' { pool = remove a l'.pool }))) (process-ops_of q l)
    ∙ ap (λ p. ok (free a (record l { pool = remove a p; ops = onto (ops_of q) l.ops }))) front
    ∙ ap (λ p. ok (free a (record l { pool = p; ops = onto (ops_of q) l.ops })))
        (remove_front a pool others)

pub run_pool-ops_in :
    (fuel : ℕ) (pool : List ℕ) (l : Lcs)
    → l.pool ≡ pool
    → IsPool l.heap pool
    → length pool ≤ fuel
    → (l' : Lcs) × (run_pool fuel pool l ≡ ok l')
      × (l'.pool ≡ [])
      × (l'.ops ≡ onto (ops_in l.heap pool) l.ops)
unfolding run_pool ops_in
run_pool-ops_in fuel [] l h v enough = (l, refl, h, refl)
run_pool-ops_in zero (a ∷ pool) l h v enough = absurd (omega arith)
run_pool-ops_in (suc fuel) (a ∷ pool) l h v enough =
    let (q, live) = v.0 in
    let (l', e, empty, ops) =
      run_pool-ops_in fuel pool (served a q pool l) refl (without-IsPool a l.heap pool v.1 v.2)
        (omega arith) in
    (
      l',
      bind_known _ (serve-served a q pool l live h v.1) ∙ e,
      empty,
      ops
          ∙ ap (λ more. onto more (onto (ops_of q) l.ops)) (without_ops a l.heap pool v.1)
          ∙ sym (onto-append (ops_of q) (ops_in l.heap pool) l.ops)
          ∙ ap (λ o. onto (ops_at o ++ ops_in l.heap pool) l.ops) (sym live),
    )

-- In a task that has been started and not killed, with as much fuel as queries wait, if these are
-- different live objects, the update event performs the queries that wait, each once and in the
-- order of the requests, and leaves none: what is asked of the database is what their types say,
-- and a search is answered before the next query is begun.
pub run-ops_in :
    (fuel : ℕ) (l : Lcs)
    → l.started ≡ true
    → IsPool l.heap l.pool
    → length l.pool ≤ fuel
    → (l' : Lcs) × (run false true fuel l ≡ ok (l', false))
      × (l'.pool ≡ [])
      × (l'.ops ≡ onto (ops_in l.heap l.pool) l.ops)
unfolding run
run-ops_in fuel l started valid enough =
    let (l', e, empty, ops) = run_pool-ops_in fuel l.pool l refl valid enough in
    (
      l',
      ap (λ b. if b then (run_pool fuel l.pool l >>= λ m. ok (m, false)) else ok (l, false))
            (ap (λ b. b && true) started)
          ∙ bind_known _ e,
      empty,
      ops,
    )
