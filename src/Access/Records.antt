-- ===== src/Access/Records.antt =====
-- Which records of memberships are of one member, and which legal entity a member is.
use buildbeaver.Base.{
  ◌==◌, Bool-cases, All, ℕ, ◌≡◌, sym, ◌∙◌, inl, inr, Bool, true, some, List, [], ◌∷◌, OnSome, arith,
}
use buildbeaver.Base.Options.{OnSome->>=, OnSome-any, require}
use buildbeaver.Models.{Text, codes, text_eq}
use buildbeaver.Models.Laws.{text_eq_iff, text_eq_refl}
use buildbeaver.Queue.{find_row}
use buildbeaver.Access.{
  ExternalResourceId, GroupMembership, LegalEntity, People, read_by_identity_id, is_member_record,
}

text_eq_comm : (s t : Text) → text_eq s t ≡ text_eq t s
text_eq_comm s t = elim (Bool-cases (text_eq s t)) [
  | inl e ↦ e ∙ sym ((text_eq_iff t s).1 (sym ((text_eq_iff s t).0 e)))
  | inr e ↦ elim (Bool-cases (text_eq t s)) [
    | inl f ↦ (text_eq_iff s t).1 (sym ((text_eq_iff t s).0 f)) ∙ sym f
    | inr f ↦ e ∙ sym f
  ]
]

-- Two records of a member in a group from one source system.
abbrev pub same_record : GroupMembership → GroupMembership → Bool
same_record a b = is_member_record b.group_id b.member_identity_id b.source_system a

pub same_record_symm : (a b : GroupMembership) → same_record a b ≡ same_record b a
unfolding is_member_record
same_record_symm a b = ground (arith, text_eq_comm a.source_system b.source_system)

pub same_record_refl : (a : GroupMembership) → same_record a a ≡ true
unfolding is_member_record
same_record_refl a = ground (arith, text_eq_refl a.source_system)

find_row-All :
    {A : Type 0} (P : A → Type 0) (key : A → ℕ) (id : ℕ) (rows : List A)
    → All P rows
    → OnSome (find_row key id rows) P
unfolding find_row
find_row-All P key id [] h = tt
find_row-All P key id (x ∷ xs) h = elim (Bool-cases (key x == id)) [
  | inl e ↦ rw e h.0
  | inr e ↦ rw e (find_row-All P key id xs h.1)
]

abbrev pub HasExternalId : LegalEntity → Type 0
HasExternalId e = (x : ExternalResourceId) × (e.external_id ≡ some x)

pub read_by_identity_id-HasExternalId :
    (people : People) (id : ℕ)
    → All HasExternalId people.legal_entities
    → OnSome (read_by_identity_id id people) HasExternalId
unfolding read_by_identity_id
read_by_identity_id-HasExternalId people id h =
    OnSome->>= _ (find_row _ id people.identities) _ (OnSome-any _) λ i u.
      OnSome->>= _ (require (text_eq i.owner_resource_id.kind (codes "legal-entity"))) _
        (OnSome-any _)
        λ v w. find_row-All HasExternalId _ i.owner_resource_id.id people.legal_entities h
