-- ===== src/Consumer/Broker.antt =====
-- The calls that leave the process: those of aio_pika and of asyncio. Each leaves a record in a trace,
-- so that what a callback did can be read off. The broker is a parameter: it says which calls return.
use aristote_dispatcher.Common.{
  ℕ, String, Option, Bool, true, false, List, [], ◌∷◌, ◌++◌, if◌then◌else◌,
}
use aristote_dispatcher.Common.Exec.{Exec, ok, raised}
use aristote_dispatcher.Consumer.Exceptions.{Exception, rejected}
use aristote_dispatcher.Consumer.Message.{IncomingMessage, Message}
use aristote_dispatcher.Consumer.Server.{VllmServer}

-- `requeue_task` and `expire_task` stand for the two uses of `asyncio.create_task`.
pub data Effect : Type 0 where
  published : Message → Option String → Effect
  acked : ℕ → Effect
  slept : ℕ → Effect
  requeue_task : IncomingMessage → Option String → Option ℕ → Effect
  expire_task : VllmServer → String → Effect

-- Whether `publish` and `ack` return; otherwise they raise.
pub record Broker : Type 0 where
  pub publishes : Message → Option String → Bool
  pub acks : ℕ → Bool

abbrev pub Io : Type 0 → Type 0
Io A = Exec Exception (List Effect) A

abbrev pub emit : Effect → Io Unit
emit e t = (ok tt, t ++ e ∷ [])

-- `await exchange.publish(message, routing_key)`
abbrev pub publish : Broker → Message → Option String → Io Unit
publish b m key t = if b.publishes m key then emit (published m key) t else (raised rejected, t)

-- `await message.ack()`
abbrev pub ack : Broker → IncomingMessage → Io Unit
ack b m t = if b.acks m.delivery_tag then emit (acked m.delivery_tag) t else (raised rejected, t)

-- A broker that takes every call.
abbrev pub reliable : Broker
reliable = record { publishes = λ m key. true; acks = λ tag. true }

-- One that takes no publication.
abbrev pub unreachable : Broker
unreachable = record { publishes = λ m key. false; acks = λ tag. true }
