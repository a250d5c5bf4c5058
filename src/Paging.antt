-- ===== src/Paging.antt =====
-- Pages of rows: `ListIn` of server/store/resource_table.go, with the cursors and paginations of
-- common/models, and the loop over the pages that the services have in common. A row is listed by its
-- time of creation and its ID; the text of a marker is taken as the marker that it encodes.
mod Listing
mod Loop
mod Order
mod Sorting
mod Pages
pub mod Visits
pub mod Deletion
pub mod Keys
mod Tests
unfoldable pub use Listing.*
unfoldable pub use Loop.*
pub use Order.*
unfoldable pub use Sorting.*
