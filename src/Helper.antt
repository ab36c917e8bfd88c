-- ===== src/Helper.antt =====
-- src/helper.rs: the preparation of a network.
pub mod Address
pub mod Source
pub mod Plan
pub mod Command
pub mod Rule
pub mod Docker
pub mod Rootless
pub mod Chain
pub mod Allocate
