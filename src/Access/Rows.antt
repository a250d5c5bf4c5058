-- ===== src/Access/Rows.antt =====
-- The tables: common/models/{grant,group,group_membership,external_resource_id,operation}.go and the
-- queries of server/store/{grants,groups,group_memberships}. An ID is a number, whose text as a UUID is
-- the parameter `uuid_text`; the IDs of a row other than those that may be missing are taken as valid,
-- and so is its time of creation.
use buildbeaver.Base.{
  ◌==◌, ℕ, Bool, true, false, not, ◌&&◌, ◌||◌, Option, none, some, List, [], ◌∷◌, ◌++◌, any,
}
use buildbeaver.Base.Options.{◌>>◌, require}
use buildbeaver.Models.{Text, text_eq, is_empty}
use buildbeaver.Queue.{select, first}
use buildbeaver.Paging.{Marker}

pub record ExternalResourceId : Type 0 where
  pub external_system : Text
  pub resource_id : Text

pub record ResourceId : Type 0 where
  pub kind : Text
  pub id : ℕ

pub record Grant : Type 0 where
  pub id : ℕ
  pub created_at : ℕ
  pub authorized_identity_id : Option ℕ
  pub authorized_group_id : Option ℕ
  pub operation_resource_type : Text
  pub operation_name : Text
  pub target_resource_id : ResourceId

pub record Group : Type 0 where
  pub id : ℕ
  pub created_at : ℕ
  pub legal_entity_id : ℕ
  pub name : Text
  pub external_id : Option ExternalResourceId

pub record GroupMembership : Type 0 where
  pub id : ℕ
  pub created_at : ℕ
  pub group_id : ℕ
  pub member_identity_id : ℕ
  pub source_system : Text

pub record AccessDb : Type 0 where
  pub grants : List Grant
  pub groups : List Group
  pub group_memberships : List GroupMembership

abbrev pub grant_marker : Grant → Marker
grant_marker g = record { created_at = g.created_at; id = g.id }

abbrev pub group_marker : Group → Marker
group_marker g = record { created_at = g.created_at; id = g.id }

-- Two IDs that may be missing, in SQL: what is missing equals nothing.
abbrev pub column_eq : Option ℕ → Option ℕ → Bool
column_eq (some a) (some b) = a == b
column_eq _ _ = false

abbrev pub is_set : Option ℕ → Bool
is_set none = false
is_set (some a) = true

abbrev pub bool_eq : Bool → Bool → Bool
bool_eq true b = b
bool_eq false b = not b

-- `Validate` of a grant.
unfoldable pub grant_valid : Grant → Bool
unfolding is_empty
grant_valid g =
    not (bool_eq (is_set g.authorized_identity_id) (is_set g.authorized_group_id))
    && not (is_empty g.operation_resource_type)
    && not (is_empty g.operation_name)

unfoldable pub resource_eq : ResourceId → ResourceId → Bool
unfolding text_eq
resource_eq a b = text_eq a.kind b.kind && a.id == b.id

unfoldable pub external_eq : ExternalResourceId → ExternalResourceId → Bool
unfolding text_eq
external_eq a b = text_eq a.external_system b.external_system && text_eq a.resource_id b.resource_id

-- What `ReadByAuthorizedOperation` asks of a row.
unfoldable pub authorizes_same : Grant → Grant → Bool
unfolding text_eq resource_eq
authorizes_same model g =
    (column_eq g.authorized_identity_id model.authorized_identity_id
      || column_eq g.authorized_group_id model.authorized_group_id)
    && text_eq g.operation_resource_type model.operation_resource_type
    && text_eq g.operation_name model.operation_name
    && resource_eq g.target_resource_id model.target_resource_id

unfoldable pub read_by_authorized_operation : Grant → AccessDb → Option Grant
unfolding first authorizes_same
read_by_authorized_operation model db = first (authorizes_same model) db.grants

-- `Create` of a grant: an ID that is taken is refused.
unfoldable pub create_grant : Grant → AccessDb → Option AccessDb
unfolding grant_valid
create_grant g db = do
  require (grant_valid g)
  require (not (any (λ row. row.id == g.id) db.grants))
  some (record db { grants = db.grants ++ (g ∷ []) })

-- `FindOrCreateGrant`: no result stands for an error, which a second try does not mend.
unfoldable pub find_or_create_grant : Grant → AccessDb → Option AccessDb
unfolding read_by_authorized_operation create_grant
find_or_create_grant g db = elim (read_by_authorized_operation g db) [
  | some found ↦ some db
  | none ↦ create_grant g db
]

unfoldable pub for_group : ℕ → Grant → Bool
for_group group_id g = column_eq g.authorized_group_id (some group_id)

unfoldable pub list_grants_for_group : ℕ → AccessDb → List Grant
unfolding select for_group
list_grants_for_group group_id db = select (for_group group_id) db.grants

unfoldable pub delete_grant : ℕ → AccessDb → AccessDb
unfolding select
delete_grant id db = record db { grants = select (λ g. not (g.id == id)) db.grants }

-- `ListGroups` for the groups of a legal entity.
unfoldable pub list_groups : ℕ → AccessDb → List Group
unfolding select
list_groups parent db = select (λ g. g.legal_entity_id == parent) db.groups

unfoldable pub delete_all_members_of_group : ℕ → AccessDb → AccessDb
unfolding select
delete_all_members_of_group id db = record db {
  group_memberships = select (λ m. not (m.group_id == id)) db.group_memberships;
}

unfoldable pub delete_all_grants_for_group : ℕ → AccessDb → AccessDb
unfolding select for_group
delete_all_grants_for_group id db = record db {
  grants = select (λ g. not (for_group id g)) db.grants;
}

unfoldable pub delete_group_row : ℕ → AccessDb → AccessDb
unfolding select
delete_group_row id db = record db { groups = select (λ g. not (g.id == id)) db.groups }
