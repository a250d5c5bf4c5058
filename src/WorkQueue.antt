-- ===== src/WorkQueue.antt =====
-- The work queue: backend/server/services/work_queue, its stores backend/server/store/work_items and
-- work_item_states, and its models backend/common/models/work_item.go and work_item_state.go.
mod Backoff
mod Items
mod Processing
unfoldable pub use Backoff.*
unfoldable pub use Items.*
unfoldable pub use Processing.*
pub mod Allocation
pub mod Retries
pub mod Handlers
pub mod Links
pub mod Integrity
mod Tests
