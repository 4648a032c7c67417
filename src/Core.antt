-- ===== src/Core.antt =====
-- src/core: values on the wire, worker tasks, property strings, credentials and the API client.
pub mod Values
pub mod Upid
pub mod Props
pub mod Poll
pub mod Registry
pub mod Privileges
pub mod Credentials
pub mod Errors
pub mod Auth
pub mod Client
mod Tests
