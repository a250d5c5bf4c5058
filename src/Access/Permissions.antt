-- ===== src/Access/Permissions.antt =====
-- `SyncCompanyGroupPermissions` and `removeObsoleteGroupPermissions` of
-- server/services/sync/sync_service.go. The grants that the source control manager lists for the group
-- are a parameter, and so is the text of an ID.
use buildbeaver.Base.{
  if◌then◌else◌, any, length, ℕ, suc, Bool, Option, none, some, List, [], ◌∷◌, ◌++◌,
}
use buildbeaver.Base.Options.{◌>>=◌}
use buildbeaver.Models.{Text, codes, text_eq}
use buildbeaver.Paging.{each_page}
use buildbeaver.Access.Rows.{
  ResourceId, Grant, AccessDb, grant_marker, find_or_create_grant, list_grants_for_group,
  delete_grant,
}

unfoldable pub find_or_create_grants : List Grant → AccessDb → Option AccessDb
unfolding find_or_create_grant
find_or_create_grants [] db = some db
find_or_create_grants (g ∷ gs) db = do db' ← find_or_create_grant g db; find_or_create_grants gs db'

module _ (uuid_text : ℕ → Text) where
  -- `String` of a valid resource ID.
  unfoldable pub resource_id_text : ResourceId → Text
  resource_id_text r = r.kind ++ codes ":" ++ uuid_text r.id

  -- `GetAuthorizedResourceID`, as text.
  unfoldable pub authorized_text : Option ℕ → Option ℕ → Text
  unfolding resource_id_text
  authorized_text (some i) _ = resource_id_text (record { kind = codes "identity"; id = i })
  authorized_text none (some i) = resource_id_text (record { kind = codes "group"; id = i })
  authorized_text none none = codes "INVALID: nil resource id"

  -- `ToUniqueString`
  unfoldable pub to_unique_string : Grant → Text
  unfolding resource_id_text authorized_text
  to_unique_string g =
      authorized_text g.authorized_identity_id g.authorized_group_id
      ++ codes "-"
      ++ g.operation_name
      ++ codes ":"
      ++ g.operation_resource_type
      ++ codes "-"
      ++ resource_id_text g.target_resource_id

  unfoldable pub grant_found_on_scm : List Grant → Grant → Bool
  unfolding to_unique_string text_eq
  grant_found_on_scm scm_grants g =
      any (λ s. text_eq (to_unique_string g) (to_unique_string s)) scm_grants

  unfoldable pub remove_obsolete_grant : List Grant → Grant → AccessDb → Option AccessDb
  unfolding grant_found_on_scm delete_grant
  remove_obsolete_grant scm_grants g db =
      some (if grant_found_on_scm scm_grants g then db else delete_grant g.id db)

  -- The bound on the number of pages is more than there are.
  unfoldable pub remove_obsolete_group_permissions : ℕ → List Grant → AccessDb → Option AccessDb
  unfolding remove_obsolete_grant each_page list_grants_for_group
  remove_obsolete_group_permissions group_id scm_grants db =
      each_page grant_marker (list_grants_for_group group_id) (remove_obsolete_grant scm_grants)
        (suc (length (list_grants_for_group group_id db))) 30 none db

  -- No result stands for an error, which leaves the tables as they were.
  unfoldable pub sync_company_group_permissions : ℕ → List Grant → AccessDb → Option AccessDb
  unfolding find_or_create_grants remove_obsolete_group_permissions
  sync_company_group_permissions group_id scm_grants db = do
    db' ← find_or_create_grants scm_grants db
    remove_obsolete_group_permissions group_id scm_grants db'
