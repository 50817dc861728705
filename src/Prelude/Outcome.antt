-- ===== src/Prelude/Outcome.antt =====
-- What a call ends in: a value, an exception that nothing catches, a read or write outside a
-- buffer (undefined behaviour), or, of no meaning in the source, a loop that is out of fuel.
use mathlib.Core.Path.{◌≡◌, subst, refl, ap}
use mathlib.Core.Bool.{Bool, true, false}
use mathlib.Core.Option.{Option, none, some}
use pushserver.Prelude.Tests.{if◌then◌else◌}

pub data Result {ℓ} (A : Type ℓ) : Type ℓ where
  ok : A → Result A
  thrown : Result A
  overrun : Result A
  stuck : Result A

infixl 5 ◌>>=◌
abbrev pub ◌>>=◌ {ℓ κ} : {A : Type ℓ} {B : Type κ} → Result A → (A → Result B) → Result B
ok a >>= f = f a
thrown >>= f = thrown
overrun >>= f = overrun
stuck >>= f = stuck

-- `none` of a library call is its exception.
abbrev pub or_throw {ℓ} : {A : Type ℓ} → Option A → Result A
or_throw none = thrown
or_throw (some a) = ok a

module _ {ℓ κ} {A : Type ℓ} {B : Type κ} where
  pub >>=-congr :
      (m : Result A) (f g : A → Result B) → ((a : A) → f a ≡ g a) → (m >>= f) ≡ (m >>= g)
  >>=-congr (ok a) f g h = h a
  >>=-congr thrown f g h = refl
  >>=-congr overrun f g h = refl
  >>=-congr stuck f g h = refl

  pub if-bind :
      (b : Bool) (a : A) (m : Result A) (k : A → Result B)
      → ((if b then ok a else m) >>= k) ≡ (if b then k a else (m >>= k))
  if-bind true a m k = refl
  if-bind false a m k = refl

pub ok-bind {ℓ κ μ} :
    {A : Type ℓ} {B : Type κ} {C : Type μ} (m : Result A) (g : A → B) (k : B → Result C)
    → ((m >>= λ a. ok (g a)) >>= k) ≡ (m >>= λ a. k (g a))
ok-bind (ok a) g k = refl
ok-bind thrown g k = refl
ok-bind overrun g k = refl
ok-bind stuck g k = refl

-- A step whose value is known.
pub bind_known {ℓ κ} :
    {A : Type ℓ} {B : Type κ} {m : Result A} {a : A} (f : A → Result B) → m ≡ ok a → (m >>= f) ≡ f a
bind_known f e = ap (λ m. m >>= f) e

pub bind_assoc {ℓ κ μ} :
    {A : Type ℓ} {B : Type κ} {C : Type μ} (m : Result A) (g : A → Result B) (k : B → Result C)
    → ((m >>= g) >>= k) ≡ (m >>= λ a. g a >>= k)
bind_assoc (ok a) g k = refl
bind_assoc thrown g k = refl
bind_assoc overrun g k = refl
bind_assoc stuck g k = refl

pub bind_overrun {ℓ κ} :
    {A : Type ℓ} {B : Type κ} {m : Result A} (f : A → Result B) → m ≡ overrun → (m >>= f) ≡ overrun
bind_overrun f e = ap (λ m. m >>= f) e

abbrev value_or {ℓ} : {A : Type ℓ} → A → Result A → A
value_or a (ok b) = b
value_or a _ = a

pub ok_inj {ℓ} : {A : Type ℓ} (a b : A) → ok a ≡ ok b → a ≡ b
ok_inj a b e = ap (value_or a) e

-- Where a value is returned, it has the property.
abbrev pub Ends {ℓ} : {A : Type ℓ} → (A → Type 0) → Result A → Type 0
Ends P (ok a) = P a
Ends P thrown = Unit
Ends P overrun = Unit
Ends P stuck = Unit

module _ {ℓ κ} {A : Type ℓ} {B : Type κ} (P : A → Type 0) (Q : B → Type 0) where
  pub Ends-bind :
      (m : Result A) (f : A → Result B)
      → Ends P m
      → ((a : A) → P a → Ends Q (f a))
      → Ends Q (m >>= f)
  Ends-bind (ok a) f h k = k a h
  Ends-bind thrown f h k = tt
  Ends-bind overrun f h k = tt
  Ends-bind stuck f h k = tt

module _ {ℓ} {A : Type ℓ} (P Q : A → Type 0) where
  pub Ends-weaken : (m : Result A) → Ends P m → ((a : A) → P a → Q a) → Ends Q m
  Ends-weaken (ok a) h k = k a h
  Ends-weaken thrown h k = tt
  Ends-weaken overrun h k = tt
  Ends-weaken stuck h k = tt

pub Ends-map {ℓ κ} :
    {A : Type ℓ} {B : Type κ} (Q : B → Type 0) (m : Result A) (g : A → B)
    → ((a : A) → Q (g a))
    → Ends Q (m >>= λ a. ok (g a))
Ends-map Q (ok a) g k = k a
Ends-map Q thrown g k = tt
Ends-map Q overrun g k = tt
Ends-map Q stuck g k = tt

module _ {ℓ} {A : Type ℓ} (P : A → Type 0) where
  pub Ends-any : (m : Result A) → ((a : A) → P a) → Ends P m
  Ends-any (ok a) h = h a
  Ends-any thrown h = tt
  Ends-any overrun h = tt
  Ends-any stuck h = tt

  pub Ends-if :
      (b : Bool) (m n : Result A)
      → (b ≡ true → Ends P m)
      → (b ≡ false → Ends P n)
      → Ends P (if b then m else n)
  Ends-if true m n h k = h refl
  Ends-if false m n h k = k refl

-- What holds of every value that a call ends with holds of the one it has.
pub Ends-ok {ℓ} : {A : Type ℓ} (P : A → Type 0) (m : Result A) (a : A) → m ≡ ok a → Ends P m → P a
Ends-ok P m a e h = subst (Ends P) e h
