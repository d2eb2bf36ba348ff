-- ===== src/Deal/Errors.antt =====
-- The exceptions that the deal code raises. `detail` dicts and message texts are left out.
use nativ.Prelude.{String}
use nativ.Deal.Substage.{Substage}

pub data DealError : Type 0 where
  -- `BusinessRuleError`, raised by `transition`
  unknown_current : Substage → DealError
  not_allowed : Substage → Substage → DealError
  auto_advance_not_listed : Substage → Substage → DealError
  -- `BusinessRuleError`, raised by `_validate_workflow_diff` on the key that it names
  forbidden : String → DealError
  -- `ValueError`, raised by `validate_reason`
  invalid_reason : String → DealError
  -- `NotFoundError`
  not_found : String → DealError
  -- `TypeError`, raised by `list(x)` where `x` is a number or `True`
  not_iterable : DealError
