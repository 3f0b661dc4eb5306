-- ===== src/Programs.antt =====
-- The programs of src/: the servers srv2.cc and srv.cc, and the clients infallible_udp.cc and cli.cc.
pub mod Server
pub mod Client
pub mod EndToEnd
pub mod Timeouts
pub mod Settings
pub mod Report
pub mod Cli
pub mod Srv
pub mod Joins
