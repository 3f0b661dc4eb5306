-- ===== src/Netring.antt =====
-- netring: an older layer over io_uring, with no fibers.
pub mod Net
pub mod Uring
pub mod Request
pub mod Sure
pub mod Executor
