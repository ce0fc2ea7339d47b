-- ===== src/Dataplane.antt =====
pub mod Counter
pub mod Cycles
pub mod Decap
pub mod Distributor
pub mod Encap
pub mod Gre
pub mod Lookup
pub mod Mbuf
pub mod Policer
pub mod Rings
pub mod Worker
