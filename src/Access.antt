-- ===== src/Access.antt =====
-- Access control: the rows of common/models/{grant,group,group_membership,external_resource_id}.go and
-- what server/services/{sync,group,authorization} do to them through server/store/{grants,groups,
-- group_memberships}, when the groups of a company and their permissions are made the same as those of
-- a source control manager. Every statement that deletes rows is taken to be carried out.
mod Rows
mod Permissions
mod CustomGroups
mod Members
mod Lists
pub mod ObsoleteGrants
pub mod ObsoleteGroups
pub mod Records
pub mod ObsoleteMembers
pub mod Granted
pub mod Converges
mod Tests
unfoldable pub use Rows.*
unfoldable pub use Permissions.*
unfoldable pub use CustomGroups.*
unfoldable pub use Members.*
