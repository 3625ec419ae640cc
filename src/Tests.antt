-- ===== src/Tests.antt =====
-- Concrete inputs, and each result applied to one.
pub mod Samples
pub mod Wire
pub mod Policy
pub mod Keys
pub mod Requests
pub mod Screens
pub mod Ciphers
pub mod Messages
pub mod Approver
pub mod Ui
pub mod Transport
pub mod Derived
pub mod Vault
