-- ===== src/Examples.antt =====
-- Concrete inputs at which the theorems of the other modules are applied.
pub mod Values
pub mod Strings
pub mod Stream
pub mod Messages
pub mod Session
pub mod Bodies
pub mod Transport
pub mod Threads
pub mod Server
pub mod Handles
pub mod Endpoints
pub mod Handshake
pub mod Log
pub mod Requests
