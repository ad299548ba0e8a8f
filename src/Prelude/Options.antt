-- ===== src/Prelude/Options.antt =====
-- The sequence of two computations that may give no result.
use mathlib.Core.Path.{◌≡◌, ap}
use mathlib.Core.Option.{Option, none, some}

infixl 20 ◌>>=◌
abbrev pub ◌>>=◌ {ℓ κ} : {A : Type ℓ} {B : Type κ} → Option A → (A → Option B) → Option B
none >>= f = none
some a >>= f = f a

pub bind-some {ℓ κ} :
    {A : Type ℓ} {B : Type κ} {r : Option A} {a : A} (f : A → Option B)
    → r ≡ some a
    → (r >>= f) ≡ f a
bind-some f e = ap (λ x. x >>= f) e
