-- ===== src/Consumer/Strategy.antt =====
-- strategy/: how a server is chosen. `server_selection_strategy.py` is the interface, `RoundRobin` and
-- `LeastBusy` its two classes; `Tracker`, `Histogram` and `Percentile` serve the second.
pub mod Histogram
pub mod Tracker
pub mod Percentile
pub mod RoundRobin
pub mod LeastBusy
use aristote_dispatcher.Common.{ℕ, String, Option, none, some, List}
use aristote_dispatcher.Common.Exec.{Exec, Result, ok, raised}
use aristote_dispatcher.Common.Float.{Float}
use aristote_dispatcher.Consumer.Exceptions.{Exception}
use aristote_dispatcher.Consumer.Server.{VllmServer}

pub data Strategy : Type 0 where
  round_robin : RoundRobin.RoundRobin → Strategy
  least_busy : LeastBusy.LeastBusy → Strategy

abbrev wrap :
    {A : Type 0} → Result Exception A × RoundRobin.RoundRobin → Result Exception A × Strategy
wrap (r, s) = (r, round_robin s)

unfoldable pub choose_server : ℕ → Exec Exception Strategy (VllmServer × Option Float)
choose_server pick (round_robin s) = wrap (RoundRobin.choose_server s)
choose_server pick (least_busy s) = (LeastBusy.choose_server pick s, least_busy s)

-- The base class has no score.
unfoldable pub get_server_score : Strategy → String → Result Exception (Option Float)
get_server_score (round_robin s) url = ok none
get_server_score (least_busy s) url = Tracker.map_ok some (LeastBusy.get_server_score s.tracker url)

unfoldable pub update_servers : List VllmServer → Strategy → Strategy
update_servers servers (round_robin s) = round_robin (RoundRobin.update_servers servers s)
update_servers servers (least_busy s) = least_busy (LeastBusy.update_servers servers s)

abbrev pub servers_of : Strategy → List VllmServer
servers_of (round_robin s) = s.servers
servers_of (least_busy s) = s.servers
