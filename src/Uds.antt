-- ===== src/Uds.antt =====
-- protocol/uds: the client of the Unified Diagnostic Services.
pub mod Model
pub mod Client
pub mod Dids
pub mod Security
pub mod Udsoncan
pub mod Services
pub mod Sessions
pub mod Authentication
