-- ===== src/Prelude/Text.antt =====
-- `std::string` and `char` buffers as lists of byte values, C strings, and `strcmp`.
use Prim.Native.Nat.{ℕ, zero, suc, ◌≤◌}
use Prim.Native.Char.{code}
use Prim.Native.String.{String}
use mathlib.Core.Path.{◌≡◌, refl, ap}
use mathlib.Core.Logic.{◌↔◌}
use mathlib.Core.Bool.{Bool, true, false, ◌&&◌}
use mathlib.Core.List.{List, [], ◌∷◌}
use native.Mathlib.Omega.{arith}
use pushserver.Prelude.Tests.{ltb, ◌==◌, if◌then◌else◌}
use pushserver.Prelude.Lists.{length, All}

abbrev pub Bytes : Type 0
Bytes = List ℕ

-- The bytes of an ASCII literal.
abbrev pub codes : String → Bytes
codes String.[] = []
codes (String.◌∷◌ c s) = code c ∷ codes s

abbrev pub bytes_eq : Bytes → Bytes → Bool
bytes_eq [] [] = true
bytes_eq [] (b ∷ bs) = false
bytes_eq (a ∷ as') [] = false
bytes_eq (a ∷ as') (b ∷ bs) = (a == b) && bytes_eq as' bs

-- The order of `std::string`, by which `std::map` keeps its keys.
abbrev pub bytes_lt : Bytes → Bytes → Bool
bytes_lt as' [] = false
bytes_lt [] (b ∷ bs) = true
bytes_lt (a ∷ as') (b ∷ bs) = if a == b then bytes_lt as' bs else ltb a b

-- `c_str()`, as the functions on C strings read it: up to the first NUL.
abbrev pub c_str : Bytes → Bytes
c_str [] = []
c_str (zero ∷ bs) = []
c_str (suc b ∷ bs) = suc b ∷ c_str bs

-- `strcmp(a, b) == 0`.
abbrev pub strcmp_eq : Bytes → Bytes → Bool
strcmp_eq a b = bytes_eq (c_str a) (c_str b)

pub bytes_eq_refl : (a : Bytes) → bytes_eq a a ≡ true
bytes_eq_refl [] = refl
bytes_eq_refl (a ∷ as') = ground (arith, bytes_eq_refl as')

bytes_eq_sound : (a b : Bytes) → bytes_eq a b ≡ true → a ≡ b
bytes_eq_sound [] [] h = refl
bytes_eq_sound [] (b ∷ bs) h = cc
bytes_eq_sound (a ∷ as') [] h = cc
bytes_eq_sound (a ∷ as') (b ∷ bs) h = ground (arith, bytes_eq_sound as' bs)

pub bytes_eq_iff : (a b : Bytes) → (bytes_eq a b ≡ true) ↔ (a ≡ b)
bytes_eq_iff a b = (bytes_eq_sound a b, λ e. rw e (bytes_eq_refl b))

pub c_str-length : (a : Bytes) → length (c_str a) ≤ length a
c_str-length [] = omega arith
c_str-length (zero ∷ bs) = omega arith
c_str-length (suc b ∷ bs) = omega (arith, c_str-length bs)

abbrev pub IsByte : ℕ → Type 0
IsByte b = suc b ≤ 256

-- A string with no NUL in it.
abbrev pub IsCString : Bytes → Type 0
IsCString = All (λ b. 1 ≤ b)

pub c_str_id : (a : Bytes) → IsCString a → c_str a ≡ a
c_str_id [] h = refl
c_str_id (zero ∷ bs) h = absurd (omega (arith, h.0))
c_str_id (suc b ∷ bs) h = ap (◌∷◌ (suc b)) (c_str_id bs h.1)
