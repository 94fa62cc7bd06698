-- ===== src/Tests.antt =====
-- The theorems at concrete inputs, with small stand-ins for the libraries.
mod Strings
mod Fixtures
mod Stores
mod Files
mod Model
mod Instances
mod Events
mod Startup
mod Running
mod Sets
mod Asked
