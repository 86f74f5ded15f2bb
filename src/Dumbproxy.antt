-- ===== src/Dumbproxy.antt =====
-- pkg/dumbproxy: the forwarding proxy that runs on the port of an instance, as far as the program
-- makes use of it, with the other providers of authentication that a configuration can name.
pub mod Http
pub mod Query
pub mod Calls
pub mod Auth
pub mod Handler
pub mod Forward
pub mod Dialers
pub mod Resolver
pub mod Access
pub mod CertCache
pub mod Serving
