-- ===== src/Backends.antt =====
-- The adapter of the tools to the registry and to the motion authority (backend_adapters.py).
pub mod Authorities
pub mod Registry
pub mod Motion
pub mod Attributes
pub mod Weighed
pub mod Confirmed
pub mod Accepted
pub mod Approach
mod Tests
