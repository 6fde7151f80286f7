-- ===== src/Extensions.antt =====
-- The registry of extensions and their lifecycle, of the package core/extensions.
pub mod Registry
pub mod Ports
pub mod Lifecycle
pub mod Rebuilding
pub mod Withdrawal
pub mod Owners
pub mod Runs
pub mod Soundness
pub mod Steps
pub mod Preservation
pub mod Calls
pub mod Uninstalls
pub mod Promises
pub mod Revocation
mod Tests
