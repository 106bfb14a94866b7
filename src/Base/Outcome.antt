-- ===== src/Base/Outcome.antt =====
-- What a Rust call can do: return `Ok`, return `Err`, panic, or, where the model runs a loop on
-- fuel, use the fuel up.
use mathlib.Core.Path.{◌≡◌, refl, ap, subst}

pub data Outcome {ℓ κ} (E : Type ℓ) (A : Type κ) : Type (ℓ ⊔ κ) where
  ok : A → Outcome E A
  err : E → Outcome E A
  panic : Outcome E A
  diverge : Outcome E A

-- The `?` operator.
infixl 5 ◌>>=◌
abbrev pub ◌>>=◌ {ℓ κ μ} :
    {E : Type ℓ} {A : Type κ} {B : Type μ} → Outcome E A → (A → Outcome E B) → Outcome E B
ok a >>= f = f a
err e >>= f = err e
panic >>= f = panic
diverge >>= f = diverge

-- The call returned, with `Ok` or with `Err`.
abbrev pub Returns {ℓ κ} : {E : Type ℓ} {A : Type κ} → Outcome E A → Type 0
Returns (ok a) = Unit
Returns (err e) = Unit
Returns panic = ⊥
Returns diverge = ⊥

-- Whatever the call returns with `Ok` satisfies `P`.
abbrev pub Ensures {ℓ κ μ} : {E : Type ℓ} {A : Type κ} → (A → Type μ) → Outcome E A → Type μ
Ensures P (ok a) = P a
Ensures P (err e) = Unit
Ensures P panic = Unit
Ensures P diverge = Unit

module _ {ℓ κ μ} {E : Type ℓ} {A : Type κ} {B : Type μ} where
  pub >>=-eq-ok :
      (call : Outcome E A) (next : A → Outcome E B) {final : B}
      → (call >>= next) ≡ ok final
      → (value : A) × (call ≡ ok value) × (next value ≡ ok final)
  >>=-eq-ok (ok value) next done = (value, refl, done)
  >>=-eq-ok (err e) next done = cc
  >>=-eq-ok panic next done = cc
  >>=-eq-ok diverge next done = cc

  pub Returns-bind :
      (m : Outcome E A) (f : A → Outcome E B)
      → Returns m
      → ((a : A) → m ≡ ok a → Returns (f a))
      → Returns (m >>= f)
  Returns-bind (ok a) f h k = k a refl
  Returns-bind (err e) f h k = tt
  Returns-bind panic f h k = h
  Returns-bind diverge f h k = h

  pub Ensures-bind {ν} :
      (P : B → Type ν) (m : Outcome E A) (f : A → Outcome E B)
      → ((a : A) → m ≡ ok a → Ensures P (f a))
      → Ensures P (m >>= f)
  Ensures-bind P (ok a) f k = k a refl
  Ensures-bind P (err e) f k = tt
  Ensures-bind P panic f k = tt
  Ensures-bind P diverge f k = tt

from_ok {ℓ κ} : {E : Type ℓ} {A : Type κ} → A → Outcome E A → A
from_ok d (ok a) = a
from_ok d _ = d

pub ok_inj {ℓ κ} : {E : Type ℓ} {A : Type κ} {a b : A} → ◌≡◌ {A = Outcome E A} (ok a) (ok b) → a ≡ b
unfolding from_ok
ok_inj {a} h = ap (from_ok a) h

pub Ensures-ok {ℓ κ μ} :
    {E : Type ℓ} {A : Type κ} (P : A → Type μ) (m : Outcome E A) (a : A)
    → Ensures P m
    → m ≡ ok a
    → P a
Ensures-ok P m a h e = subst (Ensures P) e h

pub Ensures-imp {ℓ κ μ ν} :
    {E : Type ℓ} {A : Type κ} (P : A → Type μ) (Q : A → Type ν) (m : Outcome E A)
    → ((a : A) → P a → Q a)
    → Ensures P m
    → Ensures Q m
Ensures-imp P Q (ok a) f h = f a h
Ensures-imp P Q (err e) f h = tt
Ensures-imp P Q panic f h = tt
Ensures-imp P Q diverge f h = tt

module _ {ℓ κ μ ν} {E : Type ℓ} {A : Type κ} {B : Type μ} {C : Type ν} where
  pub bind_assoc :
      (m : Outcome E A) (f : A → Outcome E B) (g : B → Outcome E C)
      → (m >>= f >>= g) ≡ (m >>= λ a. f a >>= g)
  bind_assoc (ok a) f g = refl
  bind_assoc (err e) f g = refl
  bind_assoc panic f g = refl
  bind_assoc diverge f g = refl

module _ {ℓ κ μ} {E : Type ℓ} {A : Type κ} {B : Type μ} where
  pub bind_cong :
      (m : Outcome E A) (f g : A → Outcome E B) → ((a : A) → f a ≡ g a) → (m >>= f) ≡ (m >>= g)
  bind_cong (ok a) f g h = h a
  bind_cong (err e) f g h = refl
  bind_cong panic f g h = refl
  bind_cong diverge f g h = refl

pub bind_ok {ℓ κ} : {E : Type ℓ} {A : Type κ} (m : Outcome E A) → (m >>= λ a. ok a) ≡ m
bind_ok (ok a) = refl
bind_ok (err e) = refl
bind_ok panic = refl
bind_ok diverge = refl
