-- ===== src/Records.antt =====
-- ApsLcs.h, ApsLcs.cpp and the queries of ApsLcsUtil.cpp: the task that performs the queries to MongoDB. A
-- query is an object at an address, and `none` is memory that holds no live one; queries and
-- documents are texts of the driver. NULL is never queued.
pub mod Order
pub mod Documents
pub mod Results
pub mod Life
use pushserver.Prelude.{
  ℕ, zero, suc, List, [], ◌∷◌, ◌++◌, Bool, true, false, Option, none, some, Bytes, codes, strcmp_eq,
  Result, ok, overrun, stuck, thrown, ◌>>=◌, get_elem?, ◌==◌, if◌then◌else◌, ◌&&◌,
}

pub record Query : Type 0 where
  pub type : Bytes
  pub collection : Bytes
  pub query : Bytes
  pub update : Bytes
  pub wrapper : ℕ

-- What is asked of the database, and the results handed to a wrapper.
pub data Op : Type 0 where
  adds : Bytes → Bytes → Op
  removes : Bytes → Bytes → Op
  updates : Bytes → Bytes → Bytes → Op
  finds : Bytes → Bytes → Op
  notifies : ℕ → Op

-- `pool` is `m_QueryPool`, and `ops` what was done, the newest first.
pub record Lcs : Type 0 where
  pub started : Bool
  pub pool : List ℕ
  pub heap : ℕ → Option Query
  pub ops : List Op

abbrev pub emit : Op → Lcs → Lcs
emit op l = record l { ops = op ∷ l.ops }

-- The signal to the task is left out.
unfoldable pub request_query : ℕ → Lcs → Lcs
request_query a l = record l { pool = l.pool ++ (a ∷ []) }

unfoldable pub process_excute : Query → Lcs → Lcs
process_excute q l =
    if strcmp_eq q.type (codes "Add")
    then emit (adds q.collection q.update) l
    else (if strcmp_eq q.type (codes "Remove")
        then emit (removes q.collection q.update) l
        else (if strcmp_eq q.type (codes "Update")
            then emit (updates q.collection q.query q.update) l
            else l))

unfoldable pub process_query : Query → Lcs → Lcs
process_query q l =
    if strcmp_eq q.type (codes "Find")
    then emit (notifies q.wrapper) (emit (finds q.collection q.query) l)
    else l

-- The switch on the first character of the type, which is the NUL of an empty one.
abbrev pub first : Bytes → ℕ
first [] = 0
first (c ∷ cs) = c

unfoldable pub process : Query → Lcs → Lcs
unfolding process_excute process_query
process q l =
    if first q.type == 65
    then process_excute q l
    else (if first q.type == 70
        then process_query q l
        else (if first q.type == 82
            then process_excute q l
            else (if first q.type == 85 then process_excute q l else l)))

-- `m_QueryPool.remove(pQuery)` takes out every element that is equal to it.
unfoldable pub remove : ℕ → List ℕ → List ℕ
remove a [] = []
remove a (b ∷ bs) = if a == b then remove a bs else b ∷ remove a bs

-- `delete pQuery`.
abbrev pub free : ℕ → Lcs → Lcs
free a l = record l { heap = λ b. if a == b then none else l.heap b }

-- One round, on the query at the front.
unfoldable pub serve : ℕ → Option Query → Lcs → Result Lcs
unfolding process remove
serve a none l = overrun
serve a (some q) l = let l' = process q l in ok (free a (record l' { pool = remove a l'.pool }))

-- The loop, with fuel; the length of the pool is enough.
unfoldable pub run_pool : ℕ → List ℕ → Lcs → Result Lcs
unfolding serve
run_pool fuel [] l = ok l
run_pool zero (a ∷ pool) l = stuck
run_pool (suc fuel) (a ∷ pool) l = do l' ← serve a (l.heap a) l; run_pool fuel l'.pool l'

-- `Run`: whether the kill event and the update event are set; the result says whether the task is
-- deleted.
unfoldable pub run : Bool → Bool → ℕ → Lcs → Result (Lcs × Bool)
unfolding run_pool
run killed updated fuel l =
    let served = run_pool fuel l.pool l in
    if killed
    then ok (l, true)
    else (if l.started && updated then (served >>= λ l'. ok (l', false)) else ok (l, false))
