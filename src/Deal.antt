-- ===== src/Deal.antt =====
-- The deal lifecycle: app/services/deal_lifecycle, app/repositories/deal.py, app/api/deals.py and
-- the two beat tasks that walk deals.
pub mod Substage
pub mod Errors
pub mod Transitions
pub mod StateMachine
pub mod Row
pub mod LossReasons
pub mod Orchestrator
pub mod Repository
pub mod Tasks
pub mod Api
