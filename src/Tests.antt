-- ===== src/Tests.antt =====
-- Runs of the model at concrete inputs, and the theorems at inputs that meet their hypotheses.
mod Networks
mod Serving
mod Data
mod Algorithms
mod Merging
mod Sensors
mod World
mod Writing
mod Scenes
mod Aligning
mod Sizes
mod Handling
mod Running
mod Dangling
