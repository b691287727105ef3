-- ===== src/Consumer/Message.antt =====
-- The messages that pass through RabbitMQ, and common/message_data.py. A body is kept as the value
-- that its JSON text stands for, `raw` is a text that is no JSON object.
use aristote_dispatcher.Common.{ℕ, String, Option, List}
use aristote_dispatcher.Common.Float.{Float}

-- What the consumer answers: the model of a pydantic class, with the strategy's name as its only
-- required text.
pub record MessageData : Type 0 where
  pub llm_url : Option String
  pub llm_token : Option String
  pub llm_organization : Option String
  pub strategy : String
  pub requeue_count : ℕ
  pub max_parallel_requests : ℕ
  pub current_parallel_requests : Option ℕ
  pub forwarded_priority : Option ℕ
  pub performance_score : Option Float

pub data Body : Type 0 where
  raw : String → Body
  object : List (String × Option String) → Body
  llm_params : MessageData → Body

pub data DeliveryMode : Type 0 where
  not_persistent persistent : DeliveryMode

-- A message that the broker delivered; `delivery_tag` tells deliveries apart.
pub record IncomingMessage : Type 0 where
  pub delivery_tag : ℕ
  pub body : Body
  pub headers : List (String × ℕ)
  pub content_type : Option String
  pub correlation_id : Option String
  pub delivery_mode : Option DeliveryMode
  pub priority : Option ℕ
  pub reply_to : Option String
  pub routing_key : Option String

-- A message to publish.
pub record Message : Type 0 where
  pub body : Body
  pub headers : List (String × ℕ)
  pub content_type : Option String
  pub correlation_id : Option String
  pub delivery_mode : DeliveryMode
  pub priority : Option ℕ
  pub reply_to : Option String
