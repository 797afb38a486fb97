-- ===== src/Config.antt =====
-- `ServerGroup` and `Config` of framework/services/tempesta.py: the text of the Tempesta
-- configuration. Certificates, files on the node and the logger's own configuration are left out.
pub mod Groups
pub mod Stats
pub mod Parse
