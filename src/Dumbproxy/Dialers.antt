-- ===== src/Dumbproxy/Dialers.antt =====
-- pkg/dumbproxy/dialer: dialers that go through another proxy, or choose addresses.
pub mod Upstream
pub mod Resolve
pub mod Hints
pub mod Garbage
pub mod Optimistic
pub mod Cached
pub mod Tree
pub mod Wrapped
