-- ===== src/Prelude/Maybe.antt =====
-- `do` blocks over `Option`, for code that can panic or has no value.
use mathlib.Core.Path.{◌≡◌, refl}
use mathlib.Core.Bool.{Bool, true, false}
use mathlib.Core.Option.{Option, none, some}
use contextforge_data_plane.Prelude.Tests.{if◌then◌else◌}

infixl 5 ◌>>=◌
abbrev pub ◌>>=◌ {ℓ κ} : {A : Type ℓ} {B : Type κ} → Option A → (A → Option B) → Option B
none >>= f = none
some a >>= f = f a

pub bind-eq-some {ℓ κ} :
    {A : Type ℓ} {B : Type κ} (m : Option A) (f : A → Option B) {b : B}
    → (m >>= f) ≡ some b
    → (a : A) × (m ≡ some a) × (f a ≡ some b)
bind-eq-some (some a) f h = (a, refl, h)
bind-eq-some none f h = cc

pub some-inj : {A : Type 0} {a b : A} → some a ≡ some b → a ≡ b
some-inj h = cc

-- An early return without a value.
pub return_none-eq-some {ℓ} :
    {A : Type ℓ} (c : Bool) (m : Option A) {a : A}
    → (if c then none else m) ≡ some a
    → (c ≡ false) × (m ≡ some a)
return_none-eq-some true m h = absurd cc
return_none-eq-some false m h = (refl, h)
