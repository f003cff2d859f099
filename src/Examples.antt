-- ===== src/Examples.antt =====
-- The theorems at concrete inputs, with a checksum and whole numbers in place of HMAC and `f64`.
pub mod Fixtures
pub mod Crypto
mod Tokens
mod Pipelines
mod Checks
mod Checklists
mod Counters
mod Commands
mod Tunnel
mod Exit
mod Pools
mod Names
mod Settings
pub mod Keys
pub mod Starts
mod Serving
pub mod Scaffold
mod Running
pub mod Routing
mod Building
mod Application
mod Dialling
