-- ===== src/Common/Result.antt =====
-- A value or the error that was thrown.
use mathlib.Core.Path.{◌≡◌, refl, subst, ap}
use mathlib.Core.Bool.{Bool, true, false}
use mathlib.Core.Option.{Option, none, some}
use fat_fritz.Common.Tests.{if◌then◌else◌}

pub data Result {ℓ κ} (E : Type ℓ) (A : Type κ) : Type (ℓ ⊔ κ) where
  ok : A → Result E A
  err : E → Result E A

module _ {E A B : Type 0} where
  infixl 5 ◌>>=◌
  abbrev pub ◌>>=◌ : Result E A → (A → Result E B) → Result E B
  ok a >>= f = f a
  err e >>= f = err e

  pub bind-eq-ok :
      (m : Result E A) (f : A → Result E B) (b : B)
      → (m >>= f) ≡ ok b
      → (a : A) × (m ≡ ok a) × (f a ≡ ok b)
  bind-eq-ok (ok a) f b h = (a, refl, h)
  bind-eq-ok (err e) f b h = cc

-- The property holds of the value, if there is one.
abbrev pub OfOk : {E A : Type 0} → (A → Type 0) → Result E A → Type 0
OfOk P (ok a) = P a
OfOk P (err e) = Unit

abbrev pub OfSome : {A : Type 0} → (A → Type 0) → Option A → Type 0
OfSome P (some a) = P a
OfSome P none = Unit

pub OfSome-if :
    {A : Type 0} (P : A → Type 0) (c : Bool) (m n : Option A)
    → OfSome P m
    → OfSome P n
    → OfSome P (if c then m else n)
OfSome-if P true m n h k = h
OfSome-if P false m n h k = k

module _ {E A : Type 0} (P : A → Type 0) where
  pub OfOk-if : (c : Bool) (m n : Result E A) → OfOk P m → OfOk P n → OfOk P (if c then m else n)
  OfOk-if true m n h k = h
  OfOk-if false m n h k = k

  pub OfOk-unless :
      (c : Bool) (e : E) (m : Result E A) → (c ≡ false → OfOk P m) → OfOk P (if c then err e else m)
  OfOk-unless true e m h = tt
  OfOk-unless false e m h = h refl

  pub OfOk-split :
      (c : Bool) (m n : Result E A)
      → (c ≡ true → OfOk P m)
      → (c ≡ false → OfOk P n)
      → OfOk P (if c then m else n)
  OfOk-split true m n h k = h refl
  OfOk-split false m n h k = k refl

  pub OfOk-weaken : (Q : A → Type 0) (m : Result E A) → OfOk Q m → ((a : A) → Q a → P a) → OfOk P m
  OfOk-weaken Q (ok a) h k = k a h
  OfOk-weaken Q (err e) h k = tt

  pub OfOk-ok : (m : Result E A) (a : A) → OfOk P m → m ≡ ok a → P a
  OfOk-ok m a h e = subst (OfOk P) e h

  pub OfOk-bind :
      {B : Type 0} (Q : B → Type 0) (m : Result E B) (f : B → Result E A)
      → OfOk Q m
      → ((b : B) → Q b → OfOk P (f b))
      → OfOk P (m >>= f)
  OfOk-bind Q (ok b) f h k = k b h
  OfOk-bind Q (err e) f h k = tt

pub OfOk-any : {E A : Type 0} (m : Result E A) → OfOk (λ _. Unit) m
OfOk-any (ok a) = tt
OfOk-any (err e) = tt

module _ {E A : Type 0} where
  value_or : A → Result E A → A
  value_or a (ok b) = b
  value_or a (err e) = a

  pub ok-injective : (a b : A) → ◌≡◌ {A = Result E A} (ok a) (ok b) → a ≡ b
  unfolding value_or
  ok-injective a b h = ap (value_or a) h
