-- ===== src/Identity.antt =====
-- internal/identity: operators, devices, sessions and their tokens. Times are nanoseconds since the
-- Unix epoch, and a UUID is its text.
pub mod Ports
pub mod Operators
pub mod Sessions
pub mod Service
pub mod Tokens
mod Examples
