-- ===== src/Disclosure.antt =====
-- The package core/models with infrastructure/memory/disclosures.py: the consent to disclose data to
-- a remote model, and the router that asks for it.
pub mod Fields
pub mod Digest
pub mod Consents
pub mod Previews
pub mod Service
pub mod Calls
pub mod AuditData
pub mod Router
pub mod Licences
pub mod Handing
pub mod Permission
pub mod Evolution
pub mod Lifecycle
pub mod Revocation
pub mod Runs
pub mod Promises
pub mod Previewed
pub mod Grants
mod Tests
