-- ===== src/Suite.antt =====
-- `TempestaTest` of framework/test_suite/tester.py: what a test holds, how its parts are found, and
-- how it is cleaned up after the test, whatever the test and the clean-up itself raise. Logging is
-- left out.
mod State
mod Cleanup
pub mod Laws
pub mod Capture
pub mod Asserts
pub mod Creation
pub mod Aliases
unfoldable pub use State.*
unfoldable pub use Cleanup.*
