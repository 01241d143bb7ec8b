-- ===== src/Api.antt =====
-- app/api: the handlers of the routes, and what they answer.
pub mod Errors
pub mod Imports
pub mod Names
pub mod Files
pub mod LostRefresh
pub mod Reads
pub mod Listing
pub mod Status
