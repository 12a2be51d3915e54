-- ===== src/Engine/Validator.antt =====
-- internal/engine/transfers.go: the pre-flight check of a batch, with its linked chains, and the
-- batch's application. `Staging` has the copies that a check works on, `Step` the check of one
-- transfer, `Batch` the loop over the batch.
mod Staging
mod Step
mod Batch
pub mod Outcomes
pub mod Chains
mod Tests
unfoldable pub use Staging.*
unfoldable pub use Step.*
unfoldable pub use Batch.*
