-- ===== src/Tests.antt =====
-- Tests and witnesses: concrete parameters, and the theorems at concrete inputs.
pub mod SampleDb
pub mod SampleCalls
pub mod SampleWorld
pub mod Sample
pub mod Runs
mod AutoReset
mod Api
pub mod Manager
pub mod Program
mod Services
pub mod Dumbproxy
pub mod SampleNet
mod Tunnels
mod Serving
mod Limits
mod Dials
mod Resolves
mod Certs
mod Ports
