-- ===== src/Services.antt =====
-- internal/proxyservices: the interface of the external proxy services (interface.go), and the two
-- implementations in the child modules.
pub mod Interface
pub mod Http
pub mod TmProxy
pub mod KiotProxy
pub mod Replies
