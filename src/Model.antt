-- ===== src/Model.antt =====
-- src/model.h and src/model.cpp: the game model, one module for each class or group of methods.
pub mod Road
pub mod GameMap
pub mod Loot
pub mod Dog
pub mod Session
pub mod Movement
pub mod World
pub mod Spawn
pub mod Gather
pub mod Retire
pub mod Tick
pub mod Samples
pub mod Tests
