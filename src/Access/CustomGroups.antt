-- ===== src/Access/CustomGroups.antt =====
-- `removeObsoleteCompanyCustomGroups` and `doRemoveGroup` of server/services/sync/sync_service.go, and
-- `Delete` of server/services/group/group_service.go.
use buildbeaver.Base.{
  if◌then◌else◌, any, length, ℕ, suc, Bool, false, not, ◌&&◌, Option, none, some, List,
}
use buildbeaver.Models.{Text, text_eq}
use buildbeaver.Paging.{each_page}
use buildbeaver.Access.Rows.{
  ExternalResourceId, Group, AccessDb, group_marker, external_eq, list_groups,
  delete_all_members_of_group, delete_all_grants_for_group, delete_group_row,
}

unfoldable pub delete_group : ℕ → AccessDb → AccessDb
unfolding delete_group_row delete_all_grants_for_group delete_all_members_of_group
delete_group id db =
    delete_group_row id (delete_all_grants_for_group id (delete_all_members_of_group id db))

abbrev pub external_found : ExternalResourceId → Option ExternalResourceId → Bool
external_found e none = false
external_found e (some f) = external_eq e f

unfoldable pub group_found_on_scm : List Group → ExternalResourceId → Bool
unfolding external_eq
group_found_on_scm scm_groups e = any (λ s. external_found e s.external_id) scm_groups

unfoldable pub is_obsolete_group : Text → List Group → Group → Bool
unfolding group_found_on_scm text_eq
is_obsolete_group scm_name scm_groups g = elim g.external_id [
  | none ↦ false
  | some e ↦ text_eq e.external_system scm_name && not (group_found_on_scm scm_groups e)
]

unfoldable pub remove_obsolete_group : Text → List Group → Group → AccessDb → Option AccessDb
unfolding is_obsolete_group delete_group
remove_obsolete_group scm_name scm_groups g db =
    some (if is_obsolete_group scm_name scm_groups g then delete_group g.id db else db)

-- The bound on the number of pages is more than there are.
unfoldable pub remove_obsolete_company_custom_groups :
    Text → ℕ → List Group → AccessDb → Option AccessDb
unfolding remove_obsolete_group each_page list_groups
remove_obsolete_company_custom_groups scm_name company scm_groups db =
    each_page group_marker (list_groups company) (remove_obsolete_group scm_name scm_groups)
      (suc (length (list_groups company db))) 30 none db
