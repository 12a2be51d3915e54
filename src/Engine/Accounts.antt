-- ===== src/Engine/Accounts.antt =====
-- internal/engine/accounts.go: the account manager. `State` has its fields, `Heap` the queue of
-- deadlines, `Check` and `Apply` the rules for transfers; the other children prove.
mod State
mod Heap
mod Rewrites
mod Exec
mod Check
mod Apply
mod Expiry
mod Queries
pub mod Index
pub mod Totals
pub mod Writes
pub mod Effects
pub mod Frame
pub mod Amounts
pub mod Entries
pub mod Conservation
pub mod Postings
pub mod Checked
pub mod Solvency
pub mod Overdraft
pub mod Undue
pub mod Ranks
pub mod Sifting
pub mod Order
pub mod Keeps
pub mod Queued
pub mod Quiet
pub mod Deadlines
mod Tests
unfoldable pub use State.*
unfoldable pub use Heap.*
unfoldable pub use Rewrites.*
unfoldable pub use Exec.*
unfoldable pub use Check.*
unfoldable pub use Apply.*
unfoldable pub use Expiry.*
unfoldable pub use Queries.*
