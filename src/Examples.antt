-- ===== src/Examples.antt =====
-- Concrete runs of the driver's parts, at which the theorems of the other modules apply.
pub mod Queueing
pub mod Flipping
pub mod Modes
pub mod Connectors
pub mod Screens
pub mod Frontbuffers
pub mod Damage
pub mod Shadows
pub mod Pixmaps
pub mod Sinks
pub mod Frames
