-- ===== src/Tasks/Refinement.antt =====
-- Every operation takes a step of Tasks/Steps.
mod Rows
mod Finishing
mod Claiming
mod Failing
pub use Finishing.*
pub use Claiming.*
pub use Failing.*
