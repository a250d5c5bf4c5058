-- ===== src/Queue.antt =====
-- The queue service (backend/server/services/queue) and what it calls of the other services and
-- stores (backend/server/services/job, step, build, log, event, runner and backend/server/store).
mod Table
mod Transactions
unfoldable pub use Table.*
unfoldable pub use Transactions.*
pub mod Services
pub mod Updates
pub mod Selection
pub mod Dequeue
pub mod Dependencies
pub mod Timeouts
pub mod Enqueue
mod Samples
mod Tests
