-- ===== src/Lookup.antt =====
-- Prompt-lookup drafts: src/qwfn_lookup.h and src/qwfn_lookup.cpp.
pub mod Drafter
pub mod Policy
pub mod Examples
