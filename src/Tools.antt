-- ===== src/Tools.antt =====
-- src/personal_assistant/core/tools: the registry, the policy and the gateway of tools.
pub mod Policy
pub mod Permission
pub mod Registry
pub mod Publication
pub mod Sanitizer
pub mod Host
pub mod Endings
pub mod Gateway
pub mod Invocation
pub mod Foreign
pub mod Safety
mod Tests
