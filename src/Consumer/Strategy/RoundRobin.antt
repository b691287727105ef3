-- ===== src/Consumer/Strategy/RoundRobin.antt =====
-- strategy/round_robin.py: the servers in turn. The proofs are in `Turns`.
pub mod Turns
use aristote_dispatcher.Common.{ℕ, ◌+◌, ◌%◌, Option, none, some, List, [], ◌∷◌, length, get_elem?}
use aristote_dispatcher.Common.Exec.{Exec, Result, ok, raised}
use aristote_dispatcher.Common.Float.{Float}
use aristote_dispatcher.Consumer.Exceptions.{Exception, server_not_found, index_error}
use aristote_dispatcher.Consumer.Server.{VllmServer}

pub record RoundRobin : Type 0 where
  pub servers : List VllmServer
  pub round_robin_idx : ℕ

unfoldable pub new_round_robin : List VllmServer → RoundRobin
new_round_robin servers = record { servers = servers; round_robin_idx = 0 }

unfoldable pub update_servers : List VllmServer → RoundRobin → RoundRobin
update_servers servers s = record s { servers = servers; round_robin_idx = 0 }

abbrev pub take_turn :
    RoundRobin → Option VllmServer → Result Exception (VllmServer × Option Float) × RoundRobin
take_turn s none = (raised index_error, s)
take_turn s (some choice) =
    (ok (choice, none), record s { round_robin_idx = (s.round_robin_idx + 1) % length s.servers })

abbrev pub if_any :
    List VllmServer → RoundRobin → Result Exception (VllmServer × Option Float) × RoundRobin
if_any [] s = (raised server_not_found, s)
if_any (x ∷ xs) s = take_turn s (get_elem? s.servers s.round_robin_idx)

unfoldable pub choose_server : Exec Exception RoundRobin (VllmServer × Option Float)
choose_server s = if_any s.servers s
