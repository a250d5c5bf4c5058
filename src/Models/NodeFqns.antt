-- ===== src/Models/NodeFqns.antt =====
-- The fully-qualified names of backend/common/models/node_fqn.go as strings.
use buildbeaver.Base.{all, All, ◌≡◌, refl, ◌≢◌, true, none, some, [], ◌∷◌, ◌++◌, arith}
use buildbeaver.Models.Strings.{Text, is_empty}
use buildbeaver.Models.Names.{
  name_char, matches_name, NodeFqn, fqn_string, cut, split3, fqn_scan, fqn_valid,
}

-- A valid name holds no dot.
abbrev NoDot : Text → Type 0
NoDot = All (λ c. c ≢ b'.')

NoDot-name_char : (s : Text) → all name_char s ≡ true → NoDot s
NoDot-name_char [] h = tt
NoDot-name_char (c ∷ s) h = (unfold name_char in ground arith, NoDot-name_char s (ground arith))

cut-NoDot : (s : Text) → NoDot s → cut s ≡ (s, none)
unfolding cut
cut-NoDot [] h = refl
cut-NoDot (c ∷ s) h = ground (arith, cut-NoDot s h.1)

cut-append : (s t : Text) → NoDot s → cut (s ++ (b'.' ∷ t)) ≡ (s, some t)
unfolding cut
cut-append [] t h = refl
cut-append (c ∷ s) t h = ground (arith, cut-append s t h.1)

NoDot-matches_name : (s : Text) → matches_name s ≡ true → NoDot s
NoDot-matches_name s h = NoDot-name_char s (unfold matches_name in ground arith)

-- `split3` of a text whose parts hold no dots.
split3-one : (w : Text) → NoDot w → split3 w ≡ w ∷ []
unfolding split3
split3-one w h = ground (arith, cut-NoDot w h)

split3-two : (w j : Text) → NoDot w → NoDot j → split3 (w ++ (b'.' ∷ j)) ≡ w ∷ j ∷ []
unfolding split3
split3-two w j h k = ground (arith, cut-append w j h, cut-NoDot j k)

split3-three :
    (w j t : Text) → NoDot w → NoDot j → split3 (w ++ (b'.' ∷ (j ++ (b'.' ∷ t)))) ≡ w ∷ j ∷ t ∷ []
unfolding split3
split3-three w j t h k = ground (arith, cut-append w (j ++ (b'.' ∷ t)) h, cut-append j t k)

is_empty→nil : (s : Text) → is_empty s ≡ true → s ≡ []
unfolding is_empty
is_empty→nil [] h = refl
is_empty→nil (c ∷ s) h = cc

-- Reading the string of a valid name gives the name back.
pub fqn_scan-fqn_string : (q : NodeFqn) → fqn_valid q ≡ true → fqn_scan (fqn_string q) ≡ some q
unfolding fqn_valid fqn_string fqn_scan
fqn_scan-fqn_string q h = ground (
  arith,
  is_empty→nil q.job_name,
  is_empty→nil q.step_name,
  NoDot-matches_name q.workflow_name,
  NoDot-matches_name q.job_name,
  split3-one q.workflow_name,
  split3-two q.workflow_name q.job_name,
  split3-three q.workflow_name q.job_name q.step_name,
)
