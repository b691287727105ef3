-- ===== src/Consumer/Priority.antt =====
-- priority_handler/: what priority the inference server is told. A negative BEST_PRIORITY acts as 0.
use aristote_dispatcher.Common.{ℕ, ◌-◌, Option, none, some}
use aristote_dispatcher.Common.Exec.{Result, ok, raised}
use aristote_dispatcher.Consumer.Exceptions.{Exception, type_error}

pub data PriorityHandler : Type 0 where
  ignore_priority_handler : (best_priority : ℕ) → PriorityHandler
  vllm_priority_handler : (best_priority : ℕ) → PriorityHandler

-- `max(best - current, 0)` is subtraction that stops at 0.
unfoldable pub apply_priority : PriorityHandler → Option ℕ → Result Exception (Option ℕ)
apply_priority (ignore_priority_handler best) current = ok none
apply_priority (vllm_priority_handler best) none = raised type_error
apply_priority (vllm_priority_handler best) (some current) = ok (some (best - current))
