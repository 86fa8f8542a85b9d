-- ===== src/Ple.antt =====
-- The n-gram embedding table: src/qwfn_ple.h and src/qwfn_ple.cpp.
pub mod Rows
pub mod Cache
pub mod Asks
pub mod Gather
pub mod Examples
