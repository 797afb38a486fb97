-- ===== src/Client/H2.antt =====
-- The HTTP/2 client of framework/deproxy/deproxy_client.py, `DeproxyClientH2`.
mod Library
mod Requests
mod Writing
unfoldable pub use Library.*
unfoldable pub use Requests.*
unfoldable pub use Writing.*
pub mod Frames
pub mod Aligned
pub mod Sent
pub mod Stuck
pub mod Reading
pub mod Kept
pub mod Termination
pub mod Search
pub mod Initial
