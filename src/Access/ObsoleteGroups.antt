-- ===== src/Access/ObsoleteGroups.antt =====
-- What `removeObsoleteCompanyCustomGroups` leaves of the tables.
use buildbeaver.Base.{
  ◌==◌, Bool-cases, any, All-map, ℕ, ◌≡◌, refl, sym, ap, ◌∙◌, inl, inr, Bool, true, false, not,
  ◌&&◌, Option, some, List, [], ◌∷◌, OnSome,
}
use buildbeaver.Models.{Text}
use buildbeaver.Queue.{select}
use buildbeaver.Paging.{
  is_older, each_row, order_by, All-any, IsListed, HasDistinctIds, select-HasDistinctIds,
}
use buildbeaver.Paging.Visits.{each_page-each_row}
use buildbeaver.Paging.Deletion.{
  and_swap, any-ext, select-ext, left_by, left_by-nil, left_by-kept, left_by-gone, delete-after,
  any-listed, any-listed_rows,
}
use buildbeaver.Access.{
  Grant, Group, GroupMembership, AccessDb, group_marker, for_group, list_groups,
  delete_all_members_of_group, delete_all_grants_for_group, delete_group_row, delete_group,
  is_obsolete_group, remove_obsolete_group, remove_obsolete_company_custom_groups,
}

module _ (scm_name : Text) (company : ℕ) (scm_groups : List Group) where
  abbrev obsolete : Group → Bool
  obsolete = is_obsolete_group scm_name scm_groups

  abbrev HasGroupIds : AccessDb → Type 0
  HasGroupIds db = HasDistinctIds group_marker db.groups

  remove_obsolete_group-after :
      (g : Group) (db : AccessDb)
      → HasGroupIds db
      → IsListed g (list_groups company db)
      → OnSome (remove_obsolete_group scm_name scm_groups g db) λ db'.
        HasGroupIds db'
        × (select (λ b. is_older (group_marker g) (group_marker b)) (list_groups company db')
            ≡ select (λ b. is_older (group_marker g) (group_marker b)) (list_groups company db))
  unfolding remove_obsolete_group list_groups delete_group delete_group_row
      delete_all_grants_for_group delete_all_members_of_group
  remove_obsolete_group-after g db d l = elim (Bool-cases (obsolete g)) [
    | inl e ↦ rw e (
      select-HasDistinctIds group_marker _ db.groups d,
      delete-after group_marker _ g db.groups d l,
    )
    | inr e ↦ rw e (d, refl)
  ]

  abbrev own_id : Group → Group → Bool
  own_id r z = r.id == z.id

  abbrev of_group : GroupMembership → Group → Bool
  of_group r z = r.group_id == z.id

  abbrev to_group : Grant → Group → Bool
  to_group r z = for_group z.id r

  -- The tables without the obsolete ones of some groups, and without the rows that name those.
  abbrev without : List Group → AccessDb → AccessDb
  without gs db = record {
    groups = left_by own_id obsolete gs db.groups;
    group_memberships = left_by of_group obsolete gs db.group_memberships;
    grants = left_by to_group obsolete gs db.grants;
  }

  abbrev tables : List Group → List GroupMembership → List Grant → AccessDb
  tables gs ms xs = record { groups = gs; group_memberships = ms; grants = xs }

  tables_eq :
      {gs hs : List Group} {ms ns : List GroupMembership} {xs ys : List Grant}
      → gs ≡ hs
      → ms ≡ ns
      → xs ≡ ys
      → some (tables gs ms xs) ≡ some (tables hs ns ys)
  tables_eq e f g = rw (e, f, g) refl

  abbrev each_group : List Group → AccessDb → Option AccessDb
  each_group =
      each_row group_marker (list_groups company) (remove_obsolete_group scm_name scm_groups)

  each_row_deleted :
      (g : Group) (gs : List Group) (db : AccessDb)
      → obsolete g ≡ true
      → each_group (g ∷ gs) db ≡ each_group gs (delete_group g.id db)
  unfolding each_row remove_obsolete_group
  each_row_deleted g gs db e = rw e refl

  each_row_kept :
      (g : Group) (gs : List Group) (db : AccessDb)
      → obsolete g ≡ false
      → each_group (g ∷ gs) db ≡ each_group gs db
  unfolding each_row remove_obsolete_group
  each_row_kept g gs db e = rw e refl

  each_row-groups : (gs : List Group) (db : AccessDb) → each_group gs db ≡ some (without gs db)
  unfolding each_row delete_group delete_group_row delete_all_grants_for_group
      delete_all_members_of_group
  each_row-groups [] db =
      tables_eq (sym (left_by-nil own_id obsolete db.groups))
        (sym (left_by-nil of_group obsolete db.group_memberships))
        (sym (left_by-nil to_group obsolete db.grants))
  each_row-groups (g ∷ gs) db = elim (Bool-cases (obsolete g)) [
    | inl e ↦
        each_row_deleted g gs db e
        ∙ each_row-groups gs (delete_group g.id db)
        ∙ tables_eq (left_by-gone own_id obsolete g gs db.groups e)
            (left_by-gone of_group obsolete g gs db.group_memberships e)
            (left_by-gone to_group obsolete g gs db.grants e)
    | inr e ↦
        each_row_kept g gs db e
        ∙ each_row-groups gs db
        ∙ tables_eq (left_by-kept own_id obsolete g gs db.groups e)
            (left_by-kept of_group obsolete g gs db.group_memberships e)
            (left_by-kept to_group obsolete g gs db.grants e)
  ]

  -- A group that the removal is for.
  abbrev pub is_removed_group : Group → Bool
  is_removed_group g = g.legal_entity_id == company && is_obsolete_group scm_name scm_groups g

  listed_left :
      {R : Type 0} (key : R → Group → Bool) (rows : List R) (db : AccessDb)
      → left_by key obsolete (order_by group_marker is_older (list_groups company db)) rows
        ≡ select (λ r. not (any (λ z. key r z && is_removed_group z) db.groups)) rows
  unfolding list_groups
  listed_left key rows db = select-ext _ _ rows (
      All-any rows λ r. ap not (
        any-listed_rows group_marker is_older _ _ db.groups
        ∙ any-ext _ _ db.groups
            λ z. and_swap (z.legal_entity_id == company) (key r z) (obsolete z)))

  -- If the IDs of the groups differ, the removal of a company's obsolete custom groups gives a result: the
  -- groups but for those of the company that have an external ID of the source control manager's which
  -- is none of the groups' that it lists; the memberships that are of none of these groups; and the
  -- grants that are to none of them.
  pub remove_obsolete_company_custom_groups-select :
      (db : AccessDb)
      → HasDistinctIds group_marker db.groups
      → remove_obsolete_company_custom_groups scm_name company scm_groups db
        ≡ some (record {
          groups = select (λ g. not (is_removed_group g)) db.groups;
          group_memberships =
              select
                (λ m. not (any (λ g. m.group_id == g.id && is_removed_group g) db.groups))
                db.group_memberships;
          grants =
              select
                (λ r. not (any (λ g. for_group g.id r && is_removed_group g) db.groups))
                db.grants;
        })
  unfolding remove_obsolete_company_custom_groups list_groups
  remove_obsolete_company_custom_groups-select db d =
      each_page-each_row group_marker (list_groups company)
        (remove_obsolete_group scm_name scm_groups) HasGroupIds
        (λ db d. select-HasDistinctIds group_marker _ db.groups d) remove_obsolete_group-after 29 db
        d
      ∙ each_row-groups (order_by group_marker is_older (list_groups company db)) db
      ∙ tables_eq
          (select-ext _ (λ g. not (is_removed_group g)) db.groups
            (All-map db.groups
              (any-listed group_marker is_older (λ g. g.legal_entity_id == company) obsolete
                db.groups d)
              λ r e. ap not e))
          (listed_left of_group db.group_memberships db) (listed_left to_group db.grants db)
