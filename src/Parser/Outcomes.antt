-- ===== src/Parser/Outcomes.antt =====
-- What holds of the result of a parse, part by part.
use buildbeaver.Base.{
  if◌then◌else◌, OnSome, All, ◌≡◌, refl, Bool, true, false, Option, none, some, List, [], ◌∷◌,
}
use buildbeaver.Base.Options.{◌>>◌, require, OnSome->>=}
use buildbeaver.Parser.Raw.{Raw, if_set, each}

pub OnSome-require {ℓ κ} :
    {A : Type ℓ} (Q : A → Type κ) (b : Bool) (o : Option A)
    → (b ≡ true → OnSome o Q)
    → OnSome (require b >> o) Q
OnSome-require Q true o h = h refl
OnSome-require Q false o h = tt

pub OnSome-if_set {ℓ κ} :
    {A : Type ℓ} (P : A → Type κ) (o : Option Raw) (a : A) (f : Raw → Option A)
    → P a
    → ((r : Raw) → OnSome (f r) P)
    → OnSome (if_set o a f) P
OnSome-if_set P none a f h g = h
OnSome-if_set P (some r) a f h g = g r

pub OnSome-each {ℓ κ μ} :
    {A : Type ℓ} {B : Type κ} (P : B → Type μ) (f : A → Option B) (xs : List A)
    → ((x : A) → OnSome (f x) P)
    → OnSome (each f xs) (All P)
unfolding each
OnSome-each P f [] h = tt
OnSome-each P f (x ∷ xs) h =
    OnSome->>= _ (f x) _ (h x)
      λ b p. OnSome->>= _ (each f xs) _ (OnSome-each P f xs h) λ bs ps. (p, ps)

pub OnSome-if {ℓ κ} :
    {A : Type ℓ} (P : A → Type κ) (b : Bool) (o q : Option A)
    → OnSome o P
    → OnSome q P
    → OnSome (if b then o else q) P
OnSome-if P true o q h k = h
OnSome-if P false o q h k = k
