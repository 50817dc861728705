-- ===== src/Records/Results.antt =====
-- The wrappers of ApsLcsUtil.cpp: the results of searches that wait for the task that asked.
pub mod Drain
use pushserver.Prelude.{
  ℕ, zero, suc, ◌+◌, ◌≤◌, ◌≡◌, ◌≢◌, refl, sym, ap, ◌∙◌, List, [], ◌∷◌, ◌++◌, Bool, true, false,
  Option, none, some, Bytes, codes, Result, ok, overrun, stuck, thrown, ◌>>=◌, length, ◌==◌, ==_ne,
  ==_refl, if◌then◌else◌, All, arith, bind_known, take_then, take_else,
}

-- `results` is `m_vectorResult`, whose elements are the addresses of result objects, 0 for NULL.
-- `heap` has the type of a live result, and `signals` counts the events sent to the task.
pub record Wrapper : Type 0 where
  pub results : List ℕ
  pub heap : ℕ → Option Bytes
  pub signals : ℕ

unfoldable pub notify_query_result : ℕ → Wrapper → Wrapper
notify_query_result a w = record w { results = w.results ++ (a ∷ []); signals = w.signals + 1 }

-- `delete pQResult`.
abbrev pub without_result : ℕ → (ℕ → Option Bytes) → ℕ → Option Bytes
without_result a heap b = if a == b then none else heap b

-- The result at the front is taken out and deleted, whatever its type; `none` is memory with no
-- live result, whose type is read.
abbrev pub take_result : ℕ → Option Bytes → List ℕ → Wrapper → Result Wrapper
take_result a none rest w = overrun
take_result a (some type) rest w = ok (record w { results = rest; heap = without_result a w.heap })

-- The loop, with fuel; the number of results is enough.
unfoldable pub drain_results : ℕ → List ℕ → Wrapper → Result Wrapper
drain_results fuel [] w = ok w
drain_results zero (a ∷ rest) w = stuck
drain_results (suc fuel) (zero ∷ rest) w = ok w
drain_results (suc fuel) (suc a ∷ rest) w = do
  w' ← take_result (suc a) (w.heap (suc a)) rest w
  drain_results fuel rest w'

unfoldable pub process_query_result : ℕ → Wrapper → Result Wrapper
unfolding drain_results
process_query_result fuel w = drain_results fuel w.results w
