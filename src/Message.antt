-- ===== src/Message.antt =====
-- The messages of framework/deproxy/deproxy_message.py: how their bodies, requests and responses
-- are read, printed, compared and changed.
mod Body
mod Parse
mod Print
pub mod Compare
mod Reads
pub mod Termination
pub mod Lengths
pub mod Change
pub mod Create
unfoldable pub use Body.*
unfoldable pub use Parse.*
unfoldable pub use Print.*
pub use Reads.*
