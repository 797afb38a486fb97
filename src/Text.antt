-- ===== src/Text.antt =====
-- Python's `str`: its methods, the numbers written in it, and their laws.
mod Methods
mod Laws
mod Number
mod Pattern
unfoldable pub use Methods.*
pub use Laws.*
unfoldable pub use Number.*
pub use Pattern.*
