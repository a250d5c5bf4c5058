-- ===== src/Access/ObsoleteGrants.antt =====
-- What `removeObsoleteGroupPermissions` leaves of the grants.
use buildbeaver.Base.{
  ◌==◌, Bool-cases, All-map, ℕ, ◌≡◌, refl, sym, ap, ◌∙◌, inl, inr, Bool, true, false, not, ◌&&◌,
  ◌||◌, Option, some, List, [], ◌∷◌, OnSome, arith,
}
use buildbeaver.Models.{Text}
use buildbeaver.Queue.{select}
use buildbeaver.Paging.{
  is_older, each_row, order_by, IsListed, HasDistinctIds, select-HasDistinctIds,
}
use buildbeaver.Paging.Visits.{each_page-each_row}
use buildbeaver.Paging.Deletion.{
  select-ext, left_by, left_by-nil, left_by-kept, left_by-gone, delete-after, any-listed,
}
use buildbeaver.Access.{
  Grant, AccessDb, grant_marker, for_group, list_grants_for_group, delete_grant, grant_found_on_scm,
  remove_obsolete_grant, remove_obsolete_group_permissions,
}

left_eq : (p f : Bool) → not (p && not f) ≡ (not p || f)
left_eq p f = ground arith

-- The IDs of the grants differ.
abbrev pub HasGrantIds : AccessDb → Type 0
HasGrantIds db = HasDistinctIds grant_marker db.grants

module _ (uuid_text : ℕ → Text) (group_id : ℕ) (scm_grants : List Grant) where
  abbrev found : Grant → Bool
  found = grant_found_on_scm uuid_text scm_grants

  abbrev lost : Grant → Bool
  lost g = not (found g)

  abbrev own_id : Grant → Grant → Bool
  own_id r z = r.id == z.id

  pub remove_obsolete_grant-after :
      (g : Grant) (db : AccessDb)
      → HasGrantIds db
      → IsListed g (list_grants_for_group group_id db)
      → OnSome (remove_obsolete_grant uuid_text scm_grants g db) λ db'.
        HasGrantIds db'
        × (select
              (λ b. is_older (grant_marker g) (grant_marker b))
              (list_grants_for_group group_id db')
            ≡ select
                (λ b. is_older (grant_marker g) (grant_marker b))
                (list_grants_for_group group_id db))
  unfolding remove_obsolete_grant list_grants_for_group delete_grant
  remove_obsolete_grant-after g db d l = elim (Bool-cases (found g)) [
    | inl e ↦ rw e (d, refl)
    | inr e ↦ rw e (
      select-HasDistinctIds grant_marker _ db.grants d,
      delete-after grant_marker (for_group group_id) g db.grants d l,
    )
  ]

  abbrev each_grant : List Grant → AccessDb → Option AccessDb
  each_grant =
      each_row grant_marker (list_grants_for_group group_id)
        (remove_obsolete_grant uuid_text scm_grants)

  each_row_kept :
      (g : Grant) (gs : List Grant) (db : AccessDb)
      → found g ≡ true
      → each_grant (g ∷ gs) db ≡ each_grant gs db
  unfolding each_row remove_obsolete_grant
  each_row_kept g gs db e = rw e refl

  each_row_deleted :
      (g : Grant) (gs : List Grant) (db : AccessDb)
      → found g ≡ false
      → each_grant (g ∷ gs) db ≡ each_grant gs (delete_grant g.id db)
  unfolding each_row remove_obsolete_grant
  each_row_deleted g gs db e = rw e refl

  each_row-grants :
      (gs : List Grant) (db : AccessDb)
      → each_grant gs db ≡ some (record db { grants = left_by own_id lost gs db.grants })
  unfolding each_row remove_obsolete_grant delete_grant
  each_row-grants [] db =
      ap (λ gs. some (record db { grants = gs })) (sym (left_by-nil own_id lost db.grants))
  each_row-grants (g ∷ gs) db = elim (Bool-cases (found g)) [
    | inl e ↦
        each_row_kept g gs db e
        ∙ each_row-grants gs db
        ∙ ap (λ gs. some (record db { grants = gs }))
            (left_by-kept own_id lost g gs db.grants (ap not e))
    | inr e ↦
        each_row_deleted g gs db e
        ∙ each_row-grants gs (delete_grant g.id db)
        ∙ ap (λ gs. some (record db { grants = gs }))
            (left_by-gone own_id lost g gs db.grants (ap not e))
  ]

  -- If the IDs of the grants differ, the removal of the obsolete permissions of a group gives a result: the
  -- tables as they were, but for the grants to that group that are not among the source control
  -- manager's by their unique strings.
  pub remove_obsolete_group_permissions-select :
      (db : AccessDb)
      → HasDistinctIds grant_marker db.grants
      → remove_obsolete_group_permissions uuid_text group_id scm_grants db
        ≡ some (record db {
          grants =
              select
                (λ g. not (for_group group_id g) || grant_found_on_scm uuid_text scm_grants g)
                db.grants;
        })
  unfolding remove_obsolete_group_permissions list_grants_for_group
  remove_obsolete_group_permissions-select db d =
      each_page-each_row grant_marker (list_grants_for_group group_id)
        (remove_obsolete_grant uuid_text scm_grants) HasGrantIds
        (λ db d. select-HasDistinctIds grant_marker _ db.grants d) remove_obsolete_grant-after 29 db
        d
      ∙ each_row-grants (order_by grant_marker is_older (list_grants_for_group group_id db)) db
      ∙ ap (λ gs. some (record db { grants = gs }))
          (select-ext _ (λ g. not (for_group group_id g) || found g) db.grants
            (All-map db.grants
              (any-listed grant_marker is_older (for_group group_id) (λ z. not (found z)) db.grants
                d)
              λ r e. rw e (left_eq (for_group group_id r) (found r))))
