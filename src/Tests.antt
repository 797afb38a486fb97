-- ===== src/Tests.antt =====
-- Tests: the definitions at concrete inputs, and each theorem applied to one.
mod Messages
mod Proxy
mod Endpoints
mod Services
mod Http2
mod Suites
mod Nodes
mod Programs
mod Setups
