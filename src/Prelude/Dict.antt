-- ===== src/Prelude/Dict.antt =====
-- `std::map<std::string, V>`: entries in the order of their keys, each key once.
use mathlib.Core.Path.{◌≡◌, refl}
use mathlib.Core.Bool.{Bool, true, false}
use mathlib.Core.List.{List, [], ◌∷◌}
use mathlib.Core.Option.{Option, none, some}
use native.Mathlib.Omega.{arith}
use pushserver.Prelude.Tests.{if◌then◌else◌}
use pushserver.Prelude.Text.{Bytes, bytes_eq, bytes_eq_iff, bytes_eq_refl, bytes_lt}

abbrev pub Dict {ℓ} : Type ℓ → Type ℓ
Dict V = List (Bytes × V)

module _ {ℓ} {V : Type ℓ} where
  -- `find(k)`: `none` is `end()`.
  unfoldable pub lookup : Bytes → Dict V → Option V
  lookup k [] = none
  lookup k ((j, v) ∷ m) = if bytes_eq j k then some v else lookup k m

  -- `m[k] = v`.
  unfoldable pub put : Bytes → V → Dict V → Dict V
  put k v [] = (k, v) ∷ []
  put k v ((j, w) ∷ m) =
      if bytes_eq j k
      then (k, v) ∷ m
      else (if bytes_lt k j then (k, v) ∷ (j, w) ∷ m else (j, w) ∷ put k v m)

  -- `erase(k)`.
  unfoldable pub erase : Bytes → Dict V → Dict V
  erase k [] = []
  erase k ((j, v) ∷ m) = if bytes_eq j k then erase k m else (j, v) ∷ erase k m

  -- `insert({k, v})` writes only where the key is new, and says whether it did.
  unfoldable pub insert : Bytes → V → Dict V → Dict V × Bool
  insert k v m = elim (lookup k m) [ none ↦ (put k v m, true) | some w ↦ (m, false) ]

  pub lookup-put :
      (k j : Bytes) (v : V) (m : Dict V)
      → lookup j (put k v m) ≡ (if bytes_eq k j then some v else lookup j m)
  unfolding lookup put
  lookup-put k j v [] = refl
  lookup-put k j v ((i, w) ∷ m) =
      ground (arith, bytes_eq_iff k j, bytes_eq_iff i k, bytes_eq_iff i j, lookup-put k j v m)

  pub lookup-erase :
      (k j : Bytes) (m : Dict V)
      → lookup j (erase k m) ≡ (if bytes_eq k j then none else lookup j m)
  unfolding lookup erase
  lookup-erase k j [] = ground arith
  lookup-erase k j ((i, w) ∷ m) =
      ground (arith, bytes_eq_iff k j, bytes_eq_iff i k, bytes_eq_iff i j, lookup-erase k j m)

  pub lookup-put_self : (k : Bytes) (v : V) (m : Dict V) → lookup k (put k v m) ≡ some v
  lookup-put_self k v m = simp (lookup-put, bytes_eq_refl)

  pub lookup-erase_self : (k : Bytes) (m : Dict V) → lookup k (erase k m) ≡ none
  lookup-erase_self k m = simp (lookup-erase, bytes_eq_refl)
