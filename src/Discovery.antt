-- ===== src/Discovery.antt =====
-- The brand discovery: app/services/discovery.
pub mod Policy
pub mod Complementary
pub mod Review
pub mod Proposals
