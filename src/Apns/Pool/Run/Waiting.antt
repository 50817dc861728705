-- ===== src/Apns/Pool/Run/Waiting.antt =====
-- That the clients which wait in the pool's queue get connected: `ApsApnsClientPool::Run`.
use pushserver.Prelude.{
  ℕ, ◌≡◌, ◌⊎◌, List, [], ◌∷◌, Bool, true, false, ◌&&◌, ◌||◌, Option, none, some, ◌==◌,
  if◌then◌else◌,
}
use pushserver.Apns.Pool.Run.{OsQueue, Network, is_offline}

-- What is documented of OSQueue.
pub record QueueLaws (Q : OsQueue) : Type 0 where
  pub holds-remove :
      (q : Q.Queue) (i j : ℕ) → Q.holds (Q.remove i q) j ≡ (if i == j then false else Q.holds q j)
  pub holds_empty : (q : Q.Queue) (j : ℕ) → Q.get_length q ≡ 0 → Q.holds q j ≡ false

-- Whether the iterator yields the client at a time when its socket connects.
abbrev pub connects_in : ℕ → List (Option ℕ × Bool) → Bool
connects_in i [] = false
connects_in i ((none, b) ∷ visited) = connects_in i visited
connects_in i ((some j, b) ∷ visited) = ((j == i) && b) || connects_in i visited

module _ (Q : OsQueue) (i : ℕ) where
  -- The client waits or is not offline; and, the second, it is not offline and waits no more.
  abbrev pub IsCared : Network Q → Type 0
  IsCared n = (Q.holds n.queue i ≡ true) ⊎ (is_offline Q (n.clients i).status ≡ false)

  abbrev pub IsConnected : Network Q → Type 0
  IsConnected n = (Q.holds n.queue i ≡ false) × (is_offline Q (n.clients i).status ≡ false)
