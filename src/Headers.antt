-- ===== src/Headers.antt =====
-- `HeaderCollection` of framework/deproxy/deproxy_message.py.
mod Methods
mod Lookup
mod Stream
mod Compare
pub mod RoundTrip
mod Symmetry
pub mod Lengths
pub mod Multimap
mod Termination
unfoldable pub use Methods.*
pub use Lookup.*
unfoldable pub use Stream.*
unfoldable pub use Compare.*
pub use Symmetry.*
pub use Termination.*
