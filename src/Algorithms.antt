-- ===== src/Algorithms.antt =====
-- Algorithms/: the viewport that unifies the scenes of all sensors.
pub mod Viewport
