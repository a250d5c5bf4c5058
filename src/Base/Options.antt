-- ===== src/Base/Options.antt =====
-- Chains of results that may be missing.
use mathlib.Core.Bool.{Bool, true, false}
use mathlib.Core.Option.{Option, none, some}
use buildbeaver.Base.Tests.{OnSome}

infixl 5 ◌>>=◌ ◌>>◌
abbrev pub ◌>>=◌ {ℓ κ} : {A : Type ℓ} {B : Type κ} → Option A → (A → Option B) → Option B
none >>= f = none
some a >>= f = f a

abbrev pub ◌>>◌ {ℓ} : {B : Type ℓ} → Option (Unit {0}) → Option B → Option B
m >> k = m >>= λ _. k

abbrev pub require : Bool → Option (Unit {0})
require true = some tt
require false = none

pub OnSome->>= {ℓ κ μ ν} :
    {A : Type ℓ} {B : Type κ} {P : A → Type μ} (Q : B → Type ν) (o : Option A) (f : A → Option B)
    → OnSome o P
    → ((a : A) → P a → OnSome (f a) Q)
    → OnSome (o >>= f) Q
OnSome->>= Q none f h g = tt
OnSome->>= Q (some a) f h g = g a h

pub OnSome-any {ℓ} : {A : Type ℓ} (o : Option A) → OnSome {ℓ, 0} o λ _. Unit
OnSome-any none = tt
OnSome-any (some a) = tt
