-- ===== src/Access/Members.antt =====
-- `removeObsoleteGroupMembers` of server/services/sync/sync_service.go, with `ReadByIdentityID` of
-- server/services/legal_entity/legal_entity_service.go and the queries of
-- server/store/group_memberships. The members that the source control manager lists are given by
-- their external IDs.
use buildbeaver.Base.{
  ◌==◌, if◌then◌else◌, any, length, ℕ, suc, Bool, not, ◌&&◌, Option, none, some, List,
}
use buildbeaver.Base.Options.{◌>>=◌, ◌>>◌, require}
use buildbeaver.Models.{Text, codes, text_eq}
use buildbeaver.Queue.{select, find_row}
use buildbeaver.Paging.{Marker, each_page}
use buildbeaver.Access.Rows.{ExternalResourceId, ResourceId, GroupMembership, AccessDb, external_eq}
use buildbeaver.Access.CustomGroups.{external_found}

pub record LegalEntity : Type 0 where
  pub id : ℕ
  pub external_id : Option ExternalResourceId

pub record OwnedIdentity : Type 0 where
  pub id : ℕ
  pub owner_resource_id : ResourceId

-- The tables that the removal only reads.
pub record People : Type 0 where
  pub legal_entities : List LegalEntity
  pub identities : List OwnedIdentity

abbrev pub membership_marker : GroupMembership → Marker
membership_marker m = record { created_at = m.created_at; id = m.id }

abbrev pub entity_id : LegalEntity → ℕ
entity_id e = e.id

abbrev pub identity_id : OwnedIdentity → ℕ
identity_id i = i.id

unfoldable pub read_by_identity_id : ℕ → People → Option LegalEntity
unfolding find_row text_eq
read_by_identity_id id people = do
  identity ← find_row identity_id id people.identities
  require (text_eq identity.owner_resource_id.kind (codes "legal-entity"))
  find_row entity_id identity.owner_resource_id.id people.legal_entities

-- `ListGroupMemberships` for a group and a source system.
unfoldable pub is_membership_of : ℕ → Text → GroupMembership → Bool
unfolding text_eq
is_membership_of group_id system m = m.group_id == group_id && text_eq m.source_system system

unfoldable pub list_group_memberships : ℕ → Text → AccessDb → List GroupMembership
unfolding select is_membership_of
list_group_memberships group_id system db =
    select (is_membership_of group_id system) db.group_memberships

unfoldable pub is_member_record : ℕ → ℕ → Text → GroupMembership → Bool
unfolding text_eq
is_member_record group_id member system m =
    m.group_id == group_id && m.member_identity_id == member && text_eq m.source_system system

-- `DeleteByMember` for a source system, which is what `RemoveMembership` does.
unfoldable pub delete_by_member : ℕ → ℕ → Text → AccessDb → AccessDb
unfolding select is_member_record
delete_by_member group_id member system db = record db {
  group_memberships =
      select (λ m. not (is_member_record group_id member system m)) db.group_memberships;
}

unfoldable pub member_found_on_scm : List (Option ExternalResourceId) → ExternalResourceId → Bool
unfolding external_eq
member_found_on_scm scm_members e = any (external_found e) scm_members

-- No result stands for the panic when the external ID is missing.
unfoldable pub remove_obsolete_member :
    People → Text → List (Option ExternalResourceId) → GroupMembership → AccessDb → Option AccessDb
unfolding read_by_identity_id member_found_on_scm delete_by_member
remove_obsolete_member people scm_name scm_members m db =
    elim (read_by_identity_id m.member_identity_id people) [
      | none ↦ some db
      | some entity ↦ elim entity.external_id [
        | none ↦ none
        | some e ↦ some (
            if member_found_on_scm scm_members e
            then db
            else delete_by_member m.group_id m.member_identity_id scm_name db)
      ]
    ]

-- The bound on the number of pages is more than there are.
unfoldable pub remove_obsolete_group_members :
    People → Text → ℕ → List (Option ExternalResourceId) → AccessDb → Option AccessDb
unfolding remove_obsolete_member each_page list_group_memberships
remove_obsolete_group_members people scm_name group_id scm_members db =
    each_page membership_marker (list_group_memberships group_id scm_name)
      (remove_obsolete_member people scm_name scm_members)
      (suc (length (list_group_memberships group_id scm_name db))) 30 none db
