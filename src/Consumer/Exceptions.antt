-- ===== src/Consumer/Exceptions.antt =====
-- exceptions.py, and the exceptions of Python and of the broker's library that the modelled code may
-- meet. `rejected` is whatever a call of the broker raises.
use aristote_dispatcher.Common.{ℕ, String, Option}

pub data Exception : Type 0 where
  server_not_found percentile_computation_error : Exception
  unknown_local_priority_model : Option String → Exception
  key_error index_error type_error value_error attribute_error json_decode_error : Exception
  rejected : Exception
  unknown_strategy unknown_priority_handler unknown_qos_policy : String → Exception
  vllm_not_ready : (seconds : ℕ) → Exception
