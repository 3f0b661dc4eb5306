-- ===== src/Five.antt =====
-- The utility library five/five.
pub mod Objects
pub mod Time
pub mod Xrange
pub mod RingBuffer
pub mod ObjectPool
pub mod BitPtr
pub mod Linux
pub mod Config
pub mod Program
pub mod UnitTests
