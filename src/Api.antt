-- ===== src/Api.antt =====
-- services/api/failroom_api: bearer credentials, browser sessions and terminal capabilities.
pub mod Authentication
pub mod Bearer
pub mod Sessions
pub mod Table
pub mod Evicting
pub mod Opened
pub mod Verified
pub mod Lifetimes
pub mod Capability
pub mod Authority
pub mod Genuine
pub mod Single
pub mod Issued
pub mod Accepted
