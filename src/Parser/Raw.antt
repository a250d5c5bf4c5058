-- ===== src/Parser/Raw.antt =====
-- Decoded values, which the parser is given as `interface{}`, and chains of results.
use buildbeaver.Base.{if◌then◌else◌, Bool, Option, none, some, List, [], ◌∷◌}
pub use buildbeaver.Base.Options.{◌>>=◌, ◌>>◌, require}
use buildbeaver.Models.{Text, text_eq}

-- A number is given by its digits: `float` is the `float64` of JSON.
mutual
  pub data Raw : Type 0 where
    nil_value : Raw
    text : Text → Raw
    float : Text → Raw
    integer : Text → Raw
    boolean : Bool → Raw
    array : Items → Raw
    object : Members → Raw

  pub data Items : Type 0 where
    no_items : Items
    item : Raw → Items → Items

  pub data Members : Type 0 where
    no_members : Members
    member : Text → Raw → Members → Members

abbrev pub Object : Type 0
Object = List (Text × Raw)

unfoldable pub elements : Items → List Raw
elements no_items = []
elements (item r rs) = r ∷ elements rs

unfoldable pub members : Members → Object
members no_members = []
members (member k r ms) = (k, r) ∷ members ms

-- The type assertions `.(string)`, `.([]interface{})` and `.(map[string]interface{})`.
unfoldable pub as_text : Raw → Option Text
as_text (text s) = some s
as_text _ = none

unfoldable pub as_array : Raw → Option (List Raw)
unfolding elements
as_array (array rs) = some (elements rs)
as_array _ = none

unfoldable pub as_object : Raw → Option Object
unfolding members
as_object (object ms) = some (members ms)
as_object _ = none

-- A read of a map.
unfoldable pub field : Text → Object → Option Raw
field key [] = none
field key ((k, r) ∷ ms) = let rest = field key ms in if text_eq k key then some r else rest

-- What is done with a field if it is there, and what is kept if it is not.
abbrev pub if_set {ℓ} : {A : Type ℓ} → Option Raw → A → (Raw → Option A) → Option A
if_set none a f = some a
if_set (some r) a f = f r

-- A loop that ends with the first error.
unfoldable pub each {ℓ κ} : {A : Type ℓ} {B : Type κ} → (A → Option B) → List A → Option (List B)
each f [] = some []
each f (a ∷ rest) = do b ← f a; bs ← each f rest; some (b ∷ bs)
