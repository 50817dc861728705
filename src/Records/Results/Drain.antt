-- ===== src/Records/Results/Drain.antt =====
-- That the loop of `ApsLcsWrapper::ProcessQueryResult` ends, and with what: ApsLcsUtil.cpp.
use pushserver.Prelude.{
  ℕ, zero, suc, ◌<◌, ◌≡◌, ◌≢◌, refl, ap, ◌∙◌, List, [], ◌∷◌, ◌++◌, Bool, true, false, ◌||◌, Option,
  none, some, Bytes, ok, length, ◌==◌, ==_ne, if◌then◌else◌, All, arith, bind_known,
}
use pushserver.Records.Results.{
  Wrapper, without_result, take_result, drain_results, process_query_result,
}

-- Different live objects, none of which is NULL.
abbrev pub IsLive : (ℕ → Option Bytes) → List ℕ → Type 0
IsLive heap [] = Unit
IsLive heap (zero ∷ xs) = ⊥
IsLive heap (suc a ∷ xs) =
    ((type : Bytes) × (heap (suc a) ≡ some type)) × All (λ b. suc a ≢ b) xs × IsLive heap xs

-- What the loop does not get past: nothing, or a NULL.
abbrev pub IsStop : List ℕ → Type 0
IsStop [] = Unit
IsStop (zero ∷ xs) = Unit
IsStop (suc a ∷ xs) = ⊥

abbrev pub contains : ℕ → List ℕ → Bool
contains b [] = false
contains b (a ∷ xs) = (a == b) || contains b xs

without_result-IsLive :
    (a : ℕ) (heap : ℕ → Option Bytes) (xs : List ℕ)
    → All (λ b. a ≢ b) xs
    → IsLive heap xs
    → IsLive (without_result a heap) xs
without_result-IsLive a heap [] others v = tt
without_result-IsLive a heap (zero ∷ xs) others v = v
without_result-IsLive a heap (suc b ∷ xs) others v = (
  (v.0.0, rw (==_ne a (suc b) others.0) (v.0.1)),
  v.1,
  without_result-IsLive a heap xs others.1 v.2,
)

-- The heap without the results of a list.
abbrev pub IsWithout : List ℕ → (ℕ → Option Bytes) → (ℕ → Option Bytes) → Type 0
IsWithout xs heap heap' = (b : ℕ) → heap' b ≡ (if contains b xs then none else heap b)

without_more :
    (c d : Bool) (o : Option Bytes)
    → (if d then none else (if c then none else o)) ≡ (if c || d then none else o)
without_more true true o = refl
without_more true false o = refl
without_more false true o = refl
without_more false false o = refl

drain_results-stop :
    (fuel : ℕ) (rest : List ℕ) (w : Wrapper)
    → IsStop rest
    → 0 < fuel
    → drain_results fuel rest w ≡ ok w
unfolding drain_results
drain_results-stop zero rest w stop enough = absurd (omega arith)
drain_results-stop (suc fuel) [] w stop enough = refl
drain_results-stop (suc fuel) (zero ∷ rest) w stop enough = refl
drain_results-stop (suc fuel) (suc a ∷ rest) w stop enough = elim stop [ ]

drain_results-IsWithout :
    (fuel : ℕ) (xs rest : List ℕ) (w : Wrapper)
    → w.results ≡ xs ++ rest
    → IsLive w.heap xs
    → IsStop rest
    → length xs < fuel
    → (w' : Wrapper) × (drain_results fuel (xs ++ rest) w ≡ ok w')
      × (w'.results ≡ rest)
      × (w'.signals ≡ w.signals)
      × IsWithout xs w.heap w'.heap
unfolding drain_results
drain_results-IsWithout fuel [] rest w h live stop enough =
    (w, drain_results-stop fuel rest w stop enough, h, refl, λ b. refl)
drain_results-IsWithout zero (a ∷ xs) rest w h live stop enough = absurd (omega arith)
drain_results-IsWithout (suc fuel) (zero ∷ xs) rest w h live stop enough = elim live [ ]
drain_results-IsWithout (suc fuel) (suc a ∷ xs) rest w h live stop enough =
    let taken : Wrapper = record w { results = xs ++ rest; heap = without_result (suc a) w.heap } in
    let (w', e, left, signals, gone) =
      drain_results-IsWithout fuel xs rest taken refl
        (without_result-IsLive (suc a) w.heap xs live.1 live.2) stop (omega arith) in
    (
      w',
      bind_known _ (ap (λ o. take_result (suc a) o (xs ++ rest) w) live.0.1) ∙ e,
      left,
      signals,
      λ b. gone b ∙ without_more (suc a == b) (contains b xs) (w.heap b),
    )

-- With more fuel than there are results before the first NULL, if these are different live objects,
-- the loop ends: it has taken out exactly these and deleted each once, and no other. With no NULL
-- nothing is left; a NULL stays at the front, with all results behind it.
pub process_query_result-drained :
    (fuel : ℕ) (xs rest : List ℕ) (w : Wrapper)
    → w.results ≡ xs ++ rest
    → IsLive w.heap xs
    → IsStop rest
    → length xs < fuel
    → (w' : Wrapper) × (process_query_result fuel w ≡ ok w')
      × (w'.results ≡ rest)
      × (w'.signals ≡ w.signals)
      × IsWithout xs w.heap w'.heap
unfolding process_query_result
process_query_result-drained fuel xs rest w h live stop enough =
    let (w', e, left, signals, gone) = drain_results-IsWithout fuel xs rest w h live stop enough in
    (w', ap (λ pool. drain_results fuel pool w) h ∙ e, left, signals, gone)
