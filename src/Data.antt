-- ===== src/Data.antt =====
-- Data/: what the sensors see, the clients that own them, and the queues.
pub mod Json
pub mod Matrix
pub mod Skeleton
pub mod Scene
pub mod Sensor
pub mod Client
pub mod ClientsList
pub mod Queues
pub mod Escape
pub mod Commas
