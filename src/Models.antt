-- ===== src/Models.antt =====
-- The data model (backend/common/models): texts, names, statuses and the records of the database.
-- A string is the list of its bytes. An ID is a number, and 0 is the zero value, which is not valid;
-- a time is a number too, and 0 is the zero time. A validation keeps whether there is an error, and
-- drops the message.
mod Strings
mod Status
mod Names
mod Records
unfoldable pub use Strings.*
unfoldable pub use Status.*
unfoldable pub use Names.*
unfoldable pub use Records.*
pub mod Laws
pub mod NodeFqns
mod Tests
