-- ===== src/Access/Converges.antt =====
-- What `SyncCompanyGroupPermissions` leaves of the grants.
use buildbeaver.Base.{any, All, All-map, ℕ, ◌≡◌, ap, ◌∙◌, Bool, true, not, ◌||◌, some, List, arith}
use buildbeaver.Models.{Text, text_eq}
use buildbeaver.Models.Laws.{text_eq_iff}
use buildbeaver.Queue.{select}
use buildbeaver.Paging.{
  All-any, All-passed, select_passing, select-select, HasDistinctIds, select-HasDistinctIds,
}
use buildbeaver.Paging.Deletion.{All-both}
use buildbeaver.Access.{
  Grant, AccessDb, grant_marker, authorizes_same, for_group, grant_valid, to_unique_string,
  grant_found_on_scm, sync_company_group_permissions,
}
use buildbeaver.Access.Lists.{any-own, any-kept}
use buildbeaver.Access.ObsoleteGrants.{remove_obsolete_group_permissions-select}
use buildbeaver.Access.Granted.{
  IsToGroup, IsToOne, HasFreshIds, authorizes_same-to_unique_string, find_or_create_grants-Granting,
  find_or_create_grants-found,
}

module _ (uuid_text : ℕ → Text) (group_id : ℕ) (scm_grants : List Grant) where
  abbrev kept : Grant → Bool
  kept g = not (for_group group_id g) || grant_found_on_scm uuid_text scm_grants g

  -- A grant that is found for one of the source control manager's is none that is removed.
  authorizes_same-kept :
      (rows : List Grant)
      → All (IsToOne group_id) rows
      → All (IsToGroup group_id) scm_grants
      → All (λ s. All (λ g. authorizes_same s g ≡ true → kept g ≡ true) rows) scm_grants
  unfolding grant_found_on_scm
  authorizes_same-kept rows o t = All-both _ _ scm_grants t (any-own scm_grants) λ s u own.
      All-map rows o λ g v h.
        let same = authorizes_same-to_unique_string group_id uuid_text s g u v h in
        let found : grant_found_on_scm uuid_text scm_grants g ≡ true =
          own (λ s. text_eq (to_unique_string uuid_text g) (to_unique_string uuid_text s))
            ((text_eq_iff _ _).1 same) in
        ground (arith, found)

  -- For grants of the source control manager's that are valid, are to the group and have new IDs, the
  -- synchronization gives a result: each grant to the group is then one of them by its unique string; for
  -- each of them there is a grant that authorizes the same; the grants that are not to the group are as
  -- they were; and to synchronize again changes nothing. The IDs of the grants differ before, and a
  -- grant to the group is to no identity.
  pub sync_company_group_permissions-converges :
      (db : AccessDb)
      → HasDistinctIds grant_marker db.grants
      → All (IsToOne group_id) db.grants
      → HasDistinctIds grant_marker scm_grants
      → All (λ s. grant_valid s ≡ true) scm_grants
      → All (IsToGroup group_id) scm_grants
      → HasFreshIds group_id db.grants scm_grants
      → (db' : AccessDb) × (sync_company_group_permissions uuid_text group_id scm_grants db
          ≡ some db')
        × All
            (λ g. for_group group_id g ≡ true → grant_found_on_scm uuid_text scm_grants g ≡ true)
            db'.grants
        × All (λ s. any (authorizes_same s) db'.grants ≡ true) scm_grants
        × (select (λ g. not (for_group group_id g)) db'.grants
            ≡ select (λ g. not (for_group group_id g)) db.grants)
        × (sync_company_group_permissions uuid_text group_id scm_grants db' ≡ some db')
  unfolding sync_company_group_permissions
  sync_company_group_permissions-converges db d o dg v t f =
      let (rows, ran, (d', o', all, rest, grows)) =
        find_or_create_grants-Granting group_id scm_grants db d o dg v t f in
      let db' : AccessDb = record db { grants = select kept rows } in
      let passed = All-passed kept rows in
      let granted : All (λ s. any (authorizes_same s) (select kept rows) ≡ true) scm_grants =
        All-both _ _ scm_grants (authorizes_same-kept rows o' t) all
          λ s. any-kept (authorizes_same s) kept rows in
      (
        db',
        rw ran (
            remove_obsolete_group_permissions-select uuid_text group_id scm_grants
              (record db { grants = rows }) d'),
        All-map (select kept rows) passed (λ g h i. ground (arith, h, i)),
        granted,
        select-select kept _ rows (All-any rows λ g h. ground (arith, h)) ∙ rest,
        rw (find_or_create_grants-found group_id scm_grants db' granted) (
            remove_obsolete_group_permissions-select uuid_text group_id scm_grants db'
              (select-HasDistinctIds grant_marker kept rows d')
            ∙ ap (λ gs. some (record db { grants = gs }))
                (select_passing kept (select kept rows) passed)),
      )
