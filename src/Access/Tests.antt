-- ===== src/Access/Tests.antt =====
-- The permissions and the custom groups of a company at concrete tables.
use buildbeaver.Base.{
  length, any, All, ℕ, suc, ◌≡◌, refl, not, ◌&&◌, ◌==◌, true, Option, none, some, List, [], ◌∷◌,
  map, arith,
}
use mathlib.Core.Option
use buildbeaver.Models.{Text, codes, text_eq}
use buildbeaver.Queue.{select}
use buildbeaver.Paging.{
  is_older, order_by, each_row, each_page, HasDistinctIds, select-HasDistinctIds,
}
use buildbeaver.Paging.Visits.{each_page-each_row}
use buildbeaver.Access.{
  ExternalResourceId, Grant, Group, GroupMembership, AccessDb, grant_marker, group_marker,
  LegalEntity, OwnedIdentity, People, membership_marker, is_member_record, is_membership_of,
  remove_obsolete_group_members, grant_valid, authorizes_same, for_group, list_grants_for_group,
  grant_found_on_scm, remove_obsolete_grant, sync_company_group_permissions,
  remove_obsolete_company_custom_groups,
}
use buildbeaver.Access.ObsoleteGrants.{HasGrantIds, remove_obsolete_grant-after}
use buildbeaver.Access.ObsoleteGroups.{
  is_removed_group, remove_obsolete_company_custom_groups-select,
}
use buildbeaver.Paging.Keys.{HasUniqueKeys}
use buildbeaver.Access.Records.{same_record, HasExternalId}
use buildbeaver.Access.ObsoleteMembers.{stays, remove_obsolete_group_members-select}
use buildbeaver.Access.Converges.{sync_company_group_permissions-converges}

abbrev uuid_text : ℕ → Text
uuid_text n = n ∷ []

abbrev to_group : ℕ → ℕ → ℕ → Text → Grant
to_group id created group operation = record {
  id = id;
  created_at = created;
  authorized_identity_id = none;
  authorized_group_id = some group;
  operation_resource_type = codes "repo";
  operation_name = operation;
  target_resource_id = record { kind = codes "repo"; id = 70 };
}

abbrev group : ℕ → ℕ → Option ExternalResourceId → Group
group id company external = record {
  id = id;
  created_at = 5;
  legal_entity_id = company;
  name = codes "team";
  external_id = external;
}

abbrev on_github : ℕ → ExternalResourceId
on_github n = record { external_system = codes "github"; resource_id = n ∷ [] }

abbrev member_of : ℕ → GroupMembership
member_of g = record {
  id = g;
  created_at = 6;
  group_id = g;
  member_identity_id = 3;
  source_system = codes "github";
}

abbrev tables : AccessDb
tables = record {
  grants =
      to_group 1 10 7 (codes "read")
      ∷ to_group 2 11 7 (codes "write")
      ∷ to_group 3 12 8 (codes "write")
      ∷ [];
  groups =
      group 7 20 (some (on_github 100)) ∷ group 8 20 (some (on_github 101)) ∷ group 9 20 none ∷ [];
  group_memberships = member_of 7 ∷ member_of 8 ∷ member_of 9 ∷ [];
}

-- The group may read, and is now to create too; it may no longer write.
abbrev scm_grants : List Grant
scm_grants = to_group 31 40 7 (codes "read") ∷ to_group 32 40 7 (codes "create") ∷ []

tables-HasDistinctIds : HasDistinctIds grant_marker tables.grants
unfolding HasDistinctIds
tables-HasDistinctIds = ground arith

tables-HasDistinctGroupIds : HasDistinctIds group_marker tables.groups
unfolding HasDistinctIds
tables-HasDistinctGroupIds = ground arith

-- Pages of one row each.
each_page-each_row_example :
    each_page grant_marker
      (list_grants_for_group 7)
      (remove_obsolete_grant uuid_text scm_grants)
      (suc (length (list_grants_for_group 7 tables)))
      1
      none
      tables
    ≡ each_row grant_marker
        (list_grants_for_group 7)
        (remove_obsolete_grant uuid_text scm_grants)
        (order_by grant_marker is_older (list_grants_for_group 7 tables))
        tables
unfolding list_grants_for_group
each_page-each_row_example =
    each_page-each_row grant_marker (list_grants_for_group 7)
      (remove_obsolete_grant uuid_text scm_grants) HasGrantIds
      (λ db d. select-HasDistinctIds grant_marker _ db.grants d)
      (remove_obsolete_grant-after uuid_text 7 scm_grants) 0 tables tables-HasDistinctIds

sync_company_group_permissions-converges_example :
    (db' : AccessDb) × (sync_company_group_permissions uuid_text 7 scm_grants tables ≡ some db')
    × All (λ g. for_group 7 g ≡ true → grant_found_on_scm uuid_text scm_grants g ≡ true) db'.grants
    × All (λ s. any (authorizes_same s) db'.grants ≡ true) scm_grants
    × (select (λ g. not (for_group 7 g)) db'.grants
        ≡ select (λ g. not (for_group 7 g)) tables.grants)
    × (sync_company_group_permissions uuid_text 7 scm_grants db' ≡ some db')
unfolding HasDistinctIds grant_valid
sync_company_group_permissions-converges_example =
    sync_company_group_permissions-converges uuid_text 7 scm_grants tables tables-HasDistinctIds
      ((λ h. refl), ((λ h. refl), ((λ h. refl), tt))) (ground arith) (refl, (refl, tt))
      ((refl, refl), ((refl, refl), tt)) (ground arith)

-- The source control manager has the first group only.
remove_obsolete_company_custom_groups-select_example :
    remove_obsolete_company_custom_groups
      (codes "github")
      20
      (group 0 0 (some (on_github 100)) ∷ [])
      tables
    ≡ some (record {
      groups =
          select
            (λ g.
              not (is_removed_group (codes "github") 20 (group 0 0 (some (on_github 100)) ∷ []) g))
            tables.groups;
      group_memberships =
          select
            (λ m. not (
              any
                (λ g.
                  m.group_id == g.id
                  && is_removed_group (codes "github") 20 (group 0 0 (some (on_github 100)) ∷ []) g)
                tables.groups))
            tables.group_memberships;
      grants =
          select
            (λ r. not (
              any
                (λ g.
                  for_group g.id r
                  && is_removed_group (codes "github") 20 (group 0 0 (some (on_github 100)) ∷ []) g)
                tables.groups))
            tables.grants;
    })
remove_obsolete_company_custom_groups-select_example =
    remove_obsolete_company_custom_groups-select (codes "github") 20
      (group 0 0 (some (on_github 100)) ∷ []) tables tables-HasDistinctGroupIds

abbrev ids : AccessDb → List (List ℕ)
ids db =
    map (λ g. g.id) db.groups
    ∷ map (λ m. m.id) db.group_memberships
    ∷ map (λ r. r.id) db.grants
    ∷ []

-- Which groups, memberships and grants that leaves.
remaining :
    Option.map ids (
      remove_obsolete_company_custom_groups
        (codes "github")
        20
        (group 0 0 (some (on_github 100)) ∷ [])
        tables)
    ≡ some ((7 ∷ 9 ∷ []) ∷ (7 ∷ 9 ∷ []) ∷ (1 ∷ 2 ∷ []) ∷ [])
unfolding remove_obsolete_company_custom_groups
remaining = refl

abbrev entity : ℕ → ExternalResourceId → LegalEntity
entity id e = record { id = id; external_id = some e }

abbrev identity_of : ℕ → Text → ℕ → OwnedIdentity
identity_of id kind owner = record {
  id = id;
  owner_resource_id = record { kind = kind; id = owner };
}

-- Two users and a runner.
abbrev people : People
people = record {
  legal_entities = entity 50 (on_github 1) ∷ entity 51 (on_github 2) ∷ [];
  identities =
      identity_of 3 (codes "legal-entity") 50
      ∷ identity_of 4 (codes "legal-entity") 51
      ∷ identity_of 5 (codes "runner") 60
      ∷ [];
}

abbrev membership : ℕ → ℕ → Text → GroupMembership
membership id member system = record {
  id = id;
  created_at = 6;
  group_id = 7;
  member_identity_id = member;
  source_system = system;
}

-- The first user is also a member by another system.
abbrev members : AccessDb
members = record {
  grants = [];
  groups = group 7 20 (some (on_github 100)) ∷ [];
  group_memberships =
      membership 1 3 (codes "github")
      ∷ membership 2 3 (codes "buildbeaver")
      ∷ membership 3 4 (codes "github")
      ∷ membership 4 5 (codes "github")
      ∷ [];
}

abbrev people_identified : All HasExternalId people.legal_entities
people_identified = ((on_github 1, refl), ((on_github 2, refl), tt))

members-HasMembershipKeys :
    HasDistinctIds membership_marker members.group_memberships
    × HasUniqueKeys same_record members.group_memberships
unfolding HasDistinctIds HasUniqueKeys is_member_record text_eq
members-HasMembershipKeys = (ground arith, ground arith)

-- The source control manager lists the second user only.
remove_obsolete_group_members-select_example :
    remove_obsolete_group_members people (codes "github") 7 (some (on_github 2) ∷ []) members
    ≡ some (record members {
      group_memberships =
          select
            (λ m. not (
              is_membership_of 7 (codes "github") m
              && not (stays people (some (on_github 2) ∷ []) m)))
            members.group_memberships;
    })
remove_obsolete_group_members-select_example =
    remove_obsolete_group_members-select people (codes "github") 7 (some (on_github 2) ∷ [])
      people_identified members members-HasMembershipKeys
