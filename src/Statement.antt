-- ===== src/Statement.antt =====
-- Statements: their decomposition into actors and activities, their storage and the handlers that
-- store them.
pub mod Decompose
pub mod Store
pub mod Format
pub mod Query
pub mod Compare
pub mod Services
pub mod Signatures
pub mod Attachments
pub mod Routes
pub mod Retrieve
pub mod Consistent
pub mod Activity
