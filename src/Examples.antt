-- ===== src/Examples.antt =====
-- Concrete inputs on which the theorems on groups, arrays, bitsets and tags are used.
pub mod Data
mod Groups
mod Queries
mod Basics
mod Revokes
mod Pools
mod Notifications
mod Events
mod Sends
mod Lives
mod Packs
mod Smart
