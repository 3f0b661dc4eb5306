-- ===== src/Ring2.antt =====
-- The io_uring layer of ring2/ring2, and what it is built on.
pub mod Kernel
pub mod Errors
pub mod Addr
pub mod Ring
pub mod Poller
pub mod Submitter
pub mod Messages
pub mod Sock
