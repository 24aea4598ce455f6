-- ===== src/Reachability.antt =====
-- The preflight on a grid map (reachability.py).
pub mod Grid
pub mod Flood
pub mod Sets
pub mod Walks
pub mod Scan
pub mod Found
pub mod Planner
pub mod Footprint
pub mod Bounds
pub mod Reads
pub mod Snap
pub mod Preflight
pub mod Agreement
pub mod Routes
mod Tests
