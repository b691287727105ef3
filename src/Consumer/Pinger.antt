-- ===== src/Consumer/Pinger.antt =====
-- server_pinger.py and metrics.py: which inference servers answer, while the consumer runs and before it
-- starts. The HTTP client is a parameter: what came of the request to each server. The proofs are in
-- `Healthy`.
pub mod Healthy
use aristote_dispatcher.Common.{
  ℕ, zero, suc, ltb, leb, Bool, true, false, ◌&&◌, Option, none, some, List, [], ◌∷◌, ◌++◌,
  if◌then◌else◌,
}
use aristote_dispatcher.Common.Exec.{Result, ok, raised}
use aristote_dispatcher.Consumer.Exceptions.{Exception, value_error}
use aristote_dispatcher.Consumer.Server.{VllmServer}
use aristote_dispatcher.Consumer.Strategy.{Strategy, update_servers}

-- The status of a response, an exception that `ping_server` catches, or another one, which
-- `gather` puts in the list of the results.
pub data Ping : Type 0 where
  answered : ℕ → Ping
  client_error other_error : Ping

-- `ping_server`, and the test of its result.
unfoldable pub is_healthy : Ping → Bool
is_healthy (answered status) = leb 200 status && ltb status 300
is_healthy client_error = false
is_healthy other_error = false

unfoldable pub healthy_servers : (VllmServer → Ping) → List VllmServer → List VllmServer
healthy_servers ping [] = []
healthy_servers ping (s ∷ servers) =
    let rest = healthy_servers ping servers in if is_healthy (ping s) then s ∷ rest else rest

pub record ServerPinger : Type 0 where
  pub servers_to_monitor : List VllmServer
  pub monitoring : Bool

-- One round of `_monitor_servers`.
unfoldable pub monitor_servers : ServerPinger → (VllmServer → Ping) → Strategy → Strategy
monitor_servers p ping strategy =
    update_servers (healthy_servers ping p.servers_to_monitor) strategy

unfoldable pub monitor : ServerPinger → ServerPinger
monitor p = if p.monitoring then p else record p { monitoring = true }

unfoldable pub stop_monitor : ServerPinger → ServerPinger
stop_monitor p = if p.monitoring then record p { monitoring = false } else p

-- `wait_for_vllm`: whether the server answered before the retries ran out, and how often the call slept.
-- `pings i` says whether the i-th attempt, from 0, returned.
unfoldable pub wait_for_vllm : ℕ → ℕ → (ℕ → Bool) → Bool × ℕ
wait_for_vllm zero i pings = (false, 0)
wait_for_vllm (suc retries) i pings =
    let rest = wait_for_vllm retries (suc i) pings in
    if pings i then (true, 0) else (rest.0, suc rest.1)

-- `wait_for_vllms`, from what `asyncio.wait` hands back: for each task that is done, in the order of the loop,
-- the exception that it ended with, if any. Of no servers at all `wait` raises.
unfoldable pub wait_for_vllms : List (Option Exception) → Result Exception Unit
wait_for_vllms [] = raised value_error
wait_for_vllms (none ∷ done) = ok tt
wait_for_vllms (some e ∷ []) = raised e
wait_for_vllms (some e ∷ (next ∷ done)) = wait_for_vllms (next ∷ done)
