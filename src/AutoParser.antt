-- ===== src/AutoParser.antt =====
-- `DeproxyAutoParser` of framework/deproxy/deproxy_auto_parser.py: the check that what Tempesta FW
-- forwards is what was sent, but for the changes that a proxy makes.
mod Expected
mod State
pub mod Proxying
pub mod Checks
pub mod Termination
unfoldable pub use Expected.*
unfoldable pub use State.*
