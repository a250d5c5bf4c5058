-- ===== src/Access/ObsoleteMembers.antt =====
-- What `removeObsoleteGroupMembers` leaves of the memberships.
use buildbeaver.Base.{
  if◌then◌else◌, Bool-cases, Option-cases, All, All-map, ℕ, ◌≡◌, refl, sym, ap, ◌∙◌, inl, inr, Bool,
  true, not, ◌&&◌, Option, none, some, List, [], ◌∷◌, OnSome, OnSome-some, arith,
}
use buildbeaver.Models.{Text}
use buildbeaver.Models.Laws.{text_eq_iff}
use buildbeaver.Queue.{select}
use buildbeaver.Paging.{
  is_older, each_row, order_by, All-passed, IsListed, HasDistinctIds, select-HasDistinctIds,
}
use buildbeaver.Paging.Visits.{each_page-each_row}
use buildbeaver.Paging.Deletion.{
  any-ext, select-ext, left_by, left_by-nil, left_by-kept, left_by-gone, any-listed_rows,
}
use buildbeaver.Paging.Keys.{
  deleted-after, HasUniqueKeys, select-HasUniqueKeys, older_keys, any_own_key,
}
use buildbeaver.Access.{
  ExternalResourceId, GroupMembership, AccessDb, People, membership_marker, read_by_identity_id,
  is_membership_of, list_group_memberships, is_member_record, delete_by_member, member_found_on_scm,
  remove_obsolete_member, remove_obsolete_group_members,
}
use buildbeaver.Access.Records.{
  same_record, same_record_symm, same_record_refl, HasExternalId, read_by_identity_id-HasExternalId,
}

-- The member is none of a legal entity, or the source control manager lists the legal entity.
abbrev pub stays : People → List (Option ExternalResourceId) → GroupMembership → Bool
stays people scm_members m = elim (read_by_identity_id m.member_identity_id people) [
  | none ↦ true
  | some entity ↦ elim entity.external_id [
    | none ↦ true
    | some e ↦ member_found_on_scm scm_members e
  ]
]

module _ (people : People) (scm_name : Text) (group_id : ℕ)
    (scm_members : List (Option ExternalResourceId))
    (identified : All HasExternalId people.legal_entities) where
  remove_obsolete_member-eq :
      (m : GroupMembership) (db : AccessDb)
      → remove_obsolete_member people scm_name scm_members m db
        ≡ some (
            if stays people scm_members m
            then db
            else delete_by_member m.group_id m.member_identity_id scm_name db)
  unfolding remove_obsolete_member
  remove_obsolete_member-eq m db =
      let result : Bool → Option AccessDb = λ b.
        some (if b then db else delete_by_member m.group_id m.member_identity_id scm_name db) in
      elim (Option-cases (read_by_identity_id m.member_identity_id people)) [
        | inl e ↦
            let k : stays people scm_members m ≡ true = rw (stays, e) refl in
            rw (remove_obsolete_member, e) (ap result (sym k))
        | inr (entity, e) ↦
            let (x, f) =
              OnSome-some HasExternalId e
                (read_by_identity_id-HasExternalId people m.member_identity_id identified) in
            let k : stays people scm_members m ≡ member_found_on_scm scm_members x =
              rw (stays, e, f) refl in
            rw (remove_obsolete_member, e, f) (ap result (sym k))
      ]

  abbrev listed_test : GroupMembership → Bool
  listed_test = is_membership_of group_id scm_name

  abbrev deleted_by : GroupMembership → GroupMembership → Bool
  deleted_by r z = is_member_record z.group_id z.member_identity_id scm_name r

  deleted_by-same_record :
      (r z : GroupMembership) → listed_test z ≡ true → deleted_by r z ≡ same_record r z
  unfolding is_membership_of
  deleted_by-same_record r z h =
      let system : z.source_system ≡ scm_name =
        (text_eq_iff z.source_system scm_name).0 (ground (arith, h)) in
      ap (λ s. is_member_record z.group_id z.member_identity_id s r) (sym system)

  abbrev pub HasMembershipKeys : AccessDb → Type 0
  HasMembershipKeys db =
      HasDistinctIds membership_marker db.group_memberships
      × HasUniqueKeys same_record db.group_memberships

  remove_obsolete_member-after :
      (m : GroupMembership) (db : AccessDb)
      → HasMembershipKeys db
      → IsListed m (list_group_memberships group_id scm_name db)
      → OnSome (remove_obsolete_member people scm_name scm_members m db) λ db'.
        HasMembershipKeys db'
        × (select
              (λ b. is_older (membership_marker m) (membership_marker b))
              (list_group_memberships group_id scm_name db')
            ≡ select
                (λ b. is_older (membership_marker m) (membership_marker b))
                (list_group_memberships group_id scm_name db))
  unfolding list_group_memberships delete_by_member
  remove_obsolete_member-after m db (d, u) l =
      rw (remove_obsolete_member-eq m db) (elim (Bool-cases (stays people scm_members m)) [
        | inl e ↦ rw e ((d, u), refl)
        | inr e ↦
            let rows = select listed_test db.group_memberships in
            let listed = l _ (All-passed listed_test db.group_memberships) in
            let older = l _ (
              older_keys same_record same_record_symm membership_marker rows
                (select-HasUniqueKeys same_record listed_test db.group_memberships u)) in
            rw e (
              (
                select-HasDistinctIds membership_marker _ db.group_memberships d,
                select-HasUniqueKeys same_record _ db.group_memberships u,
              ),
              deleted-after membership_marker listed_test (λ b. deleted_by b m)
                  (membership_marker m) db.group_memberships
                  (All-map rows older λ b n o. deleted_by-same_record b m listed ∙ n o),
            )
      ])

  abbrev each_member : List GroupMembership → AccessDb → Option AccessDb
  each_member =
      each_row membership_marker (list_group_memberships group_id scm_name)
        (remove_obsolete_member people scm_name scm_members)

  each_row_member :
      (m : GroupMembership) (ms : List GroupMembership) (db : AccessDb)
      → each_member (m ∷ ms) db
        ≡ each_member ms (
            if stays people scm_members m
            then db
            else delete_by_member m.group_id m.member_identity_id scm_name db)
  unfolding each_row
  each_row_member m ms db = rw (remove_obsolete_member-eq m db) refl

  abbrev leaves : GroupMembership → Bool
  leaves m = not (stays people scm_members m)

  each_row-members :
      (ms : List GroupMembership) (db : AccessDb)
      → each_member ms db
        ≡ some (record db { group_memberships = left_by deleted_by leaves ms db.group_memberships })
  unfolding each_row delete_by_member
  each_row-members [] db =
      ap (λ ms. some (record db { group_memberships = ms }))
        (sym (left_by-nil deleted_by leaves db.group_memberships))
  each_row-members (m ∷ ms) db = elim (Bool-cases (stays people scm_members m)) [
    | inl e ↦
        each_row_member m ms db
        ∙ ap
            (λ b.
              each_member ms
                (if b then db else delete_by_member m.group_id m.member_identity_id scm_name db))
            e
        ∙ each_row-members ms db
        ∙ ap (λ ms. some (record db { group_memberships = ms }))
            (left_by-kept deleted_by leaves m ms db.group_memberships (ap not e))
    | inr e ↦
        each_row_member m ms db
        ∙ ap
            (λ b.
              each_member ms
                (if b then db else delete_by_member m.group_id m.member_identity_id scm_name db))
            e
        ∙ each_row-members ms (delete_by_member m.group_id m.member_identity_id scm_name db)
        ∙ ap (λ ms. some (record db { group_memberships = ms }))
            (left_by-gone deleted_by leaves m ms db.group_memberships (ap not e))
  ]

  only_listed :
      (r z : GroupMembership)
      → (listed_test z && (deleted_by r z && leaves z))
        ≡ (same_record r z && (listed_test z && leaves z))
  only_listed r z = elim (Bool-cases (listed_test z)) [
    | inl e ↦ rw (e, deleted_by-same_record r z e) refl
    | inr e ↦ rw e (ground arith)
  ]

  -- If every legal entity has an external ID, the IDs of the memberships differ, and no two memberships are
  -- of one member in one group from one source system, the removal of the obsolete members of a group
  -- gives a result: the tables as they were, but for the memberships of the group from the source control
  -- manager that are a legal entity's which it does not list.
  pub remove_obsolete_group_members-select :
      (db : AccessDb)
      → HasMembershipKeys db
      → remove_obsolete_group_members people scm_name group_id scm_members db
        ≡ some (record db {
          group_memberships =
              select
                (λ m.
                  not (is_membership_of group_id scm_name m && not (stays people scm_members m)))
                db.group_memberships;
        })
  unfolding remove_obsolete_group_members list_group_memberships
  remove_obsolete_group_members-select db k =
      each_page-each_row membership_marker (list_group_memberships group_id scm_name)
        (remove_obsolete_member people scm_name scm_members) HasMembershipKeys
        (λ db k. select-HasDistinctIds membership_marker _ db.group_memberships k.0)
        remove_obsolete_member-after 29 db k
      ∙ each_row-members
          (order_by membership_marker is_older (list_group_memberships group_id scm_name db)) db
      ∙ ap (λ ms. some (record db { group_memberships = ms }))
          (select-ext _ _ db.group_memberships (
            All-map db.group_memberships
              (any_own_key same_record same_record_symm (λ z. listed_test z && leaves z)
                db.group_memberships same_record_refl k.1)
              λ r e. ap not (
                any-listed_rows membership_marker is_older _ listed_test db.group_memberships
                ∙ any-ext _ _ db.group_memberships (only_listed r)
                ∙ e)))
