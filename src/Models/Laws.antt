-- ===== src/Models/Laws.antt =====
-- The laws of texts, statuses and names.
use buildbeaver.Base.{
  if◌then◌else◌, Option-cases, ◌≡◌, refl, ap, ◌↔◌, inl, inr, true, false, none, some, [], ◌∷◌,
  arith,
}
use buildbeaver.Models.Strings.{Text, codes, text_eq}
use buildbeaver.Models.Status.{
  WorkflowStatus, unknown, other, to_string, workflow_statuses, status_valid, scan_status,
  status_value, status_eq,
}

pub text_eq_iff : (s t : Text) → (text_eq s t ≡ true) ↔ (s ≡ t)
unfolding text_eq
text_eq_iff [] [] = ((λ _. refl), (λ _. refl))
text_eq_iff [] (b ∷ t) = ((λ h. cc), (λ h. cc))
text_eq_iff (a ∷ s) [] = ((λ h. cc), (λ h. cc))
text_eq_iff (a ∷ s) (b ∷ t) =
    let (there, back) = text_eq_iff s t in
    ((λ h. ground (arith, there)), (λ h. ground (arith, back)))

pub text_eq_refl : (s : Text) → text_eq s s ≡ true
text_eq_refl s = (text_eq_iff s s).1 refl

-- Go's `==` on statuses decides equality.
pub status_eq_iff : (a b : WorkflowStatus) → (status_eq a b ≡ true) ↔ (a ≡ b)
unfolding status_eq
status_eq_iff (other s) (other t) =
    let (there, back) = text_eq_iff s t in ((λ h. ap other (there h)), (λ h. back (ground arith)))
status_eq_iff a b = (ground arith, ground arith)

to_string-workflow_statuses :
    (s : Text) (t : WorkflowStatus) → workflow_statuses s ≡ some t → to_string t ≡ s
unfolding workflow_statuses to_string
to_string-workflow_statuses s t h = ground (
  arith,
  text_eq_iff s (codes "queued"),
  text_eq_iff s (codes "submitted"),
  text_eq_iff s (codes "running"),
  text_eq_iff s (codes "failed"),
  text_eq_iff s (codes "succeeded"),
  text_eq_iff s (codes "canceled"),
  text_eq_iff s (codes "unknown"),
)

not_a_status : (s : Text) → workflow_statuses s ≡ none → status_valid (other s) ≡ false
unfolding status_valid to_string
not_a_status s e = rw (status_valid, e) refl

a_status :
    (s : Text) (t : WorkflowStatus) → workflow_statuses s ≡ some t → status_valid (other s) ≡ true
unfolding status_valid to_string
a_status s t e = rw (status_valid, e) refl

-- A status written to the database and read back: a valid one comes back with the same string, and
-- any other comes back as `unknown`.
pub scan_status-status_value :
    (s : WorkflowStatus)
    → (t : WorkflowStatus) × (scan_status (status_value s) ≡ some t)
      × (to_string t ≡ (if status_valid s then to_string s else to_string unknown))
unfolding scan_status status_value
scan_status-status_value (other s) = elim (Option-cases (workflow_statuses s)) [
  | inl e ↦ (unknown, rw (e, scan_status), rw (not_a_status s e) refl)
  | inr (t, e) ↦ (t, rw (e, scan_status), rw (a_status s t e) (to_string-workflow_statuses s t e))
]
scan_status-status_value s = unfold status_valid workflow_statuses text_eq in (_, refl, refl)
