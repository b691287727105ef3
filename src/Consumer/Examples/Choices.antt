-- ===== src/Consumer/Examples/Choices.antt =====
-- The theorems about the policies, the strategies and the pinger at concrete servers and metrics.
use aristote_dispatcher.Common.{
  List, ℕ, ◌≡◌, ◌≢◌, ◌≤◌, ◌<◌, ◌⊎◌, ◌↔◌, inr, refl, ◌+◌, leb, ◌==◌, Bool, true, false, string_eq,
  none, some, [], ◌∷◌, arith, option_eq, if◌then◌else◌,
}
use aristote_dispatcher.Common.Dict.{lookup, insert}
use aristote_dispatcher.Common.Exec.{ok, raised}
use aristote_dispatcher.Common.Float.{finite, inf}
use aristote_dispatcher.Common.Int.{scale, pos, negsuc}
use aristote_dispatcher.Consumer.Broker.{requeue_task}
use aristote_dispatcher.Consumer.Exceptions.{
  server_not_found, index_error, percentile_computation_error,
}
use aristote_dispatcher.Consumer.Pinger.{
  Ping, answered, client_error, ServerPinger, healthy_servers, is_healthy, monitor_servers,
  wait_for_vllm,
}
use aristote_dispatcher.Consumer.Pinger.Healthy.{
  IsHealthy, monitor_servers-IsHealthy, wait_for_vllm_lem,
}
use aristote_dispatcher.Consumer.Policy.{parallel_requests_threshold_requeue_policy}
use aristote_dispatcher.Consumer.Policy.Deferral.{
  Traced, apply_policy_trace, IsUrgent, parallel_requests_threshold_cases,
}
use aristote_dispatcher.Consumer.Server.{VllmServer, server_eq}
use aristote_dispatcher.Consumer.Strategy.{round_robin, choose_server, update_servers}
use aristote_dispatcher.Consumer.Strategy.Histogram.{Histogram}
use aristote_dispatcher.Consumer.Strategy.Percentile.{
  sorted, last_count, get_percentile, find_bucket, business_score,
}
use aristote_dispatcher.Consumer.Strategy.Percentile.Least.{
  LeastBucket, get_percentile-LeastBucket, get_percentile_raises,
}
use aristote_dispatcher.Consumer.Strategy.LeastBusy
use aristote_dispatcher.Consumer.Strategy.LeastBusy.Best.{IsBest, choose_server-IsBest}
use aristote_dispatcher.Consumer.Settings.{
  RawServer, ConfiguredServer, vllm_servers, parse_servers, parse_server,
}
use aristote_dispatcher.Consumer.Settings.Servers.{AreReadFrom, vllm_servers-AreReadFrom}
use aristote_dispatcher.Consumer.Strategy.Tracker.{MetricsTracker}
use aristote_dispatcher.Consumer.Strategy.RoundRobin
use aristote_dispatcher.Consumer.Strategy.RoundRobin.Turns.{
  IsValid, choices, choices-round_from, choose_server-IsValid,
}
use mathlib.Core.List.{Perm}
use aristote_dispatcher.Consumer.Examples.{server_a, server_b, servers, turns, question}
use aristote_dispatcher.Consumer.Policy.{apply_policy}

abbrev metrics : Histogram
metrics = (inf, pos 10) ∷ (finite (pos 300000), pos 2) ∷ (finite (pos 500000), pos 10) ∷ []

abbrev fallen : Histogram
fallen = (finite (pos 300000), negsuc 4) ∷ (inf, negsuc 4) ∷ []

abbrev ill_a : VllmServer → Ping
ill_a s = if s.url == "http://a" then client_error else answered 200

abbrev pinger : ServerPinger
pinger = record { servers_to_monitor = servers; monitoring = true }

abbrev third_time : ℕ → Bool
third_time i = leb 2 i

choices-round_from_example :
    (choices 2 turns ≡ (ok (server_b ∷ server_a ∷ []), turns))
    × Perm (server_b ∷ server_a ∷ []) servers
choices-round_from_example = choices-round_from turns (omega arith)

choose_server-IsValid_example :
    IsValid (RoundRobin.choose_server turns).1
    × IsValid (RoundRobin.update_servers [] turns)
    × IsValid (RoundRobin.new_round_robin [])
    × ((RoundRobin.choose_server turns).0 ≢ raised index_error)
    × (((RoundRobin.choose_server turns).0 ≡ raised server_not_found) ↔ (servers ≡ []))
choose_server-IsValid_example = choose_server-IsValid turns [] (inr (omega arith))

get_percentile-LeastBucket_example :
    LeastBucket 95 (last_count (sorted metrics)) 0 (sorted metrics) (get_percentile metrics 95)
get_percentile-LeastBucket_example = get_percentile-LeastBucket metrics 95 (λ e. cc)

get_percentile_raises_example : get_percentile fallen 95 ≡ raised percentile_computation_error
get_percentile_raises_example =
    get_percentile_raises fallen 95 4 (λ e. cc) (omega arith) (refl, (refl, tt))

apply_policy_trace_example : Traced question (some "q") (some 1) [] (
    apply_policy
      (parallel_requests_threshold_requeue_policy none)
      3
      none
      2
      2
      question
      (some "q")
      (some 1)
      [])
apply_policy_trace_example =
    apply_policy_trace 3 2 2 question (some "q") (some 1) []
      (parallel_requests_threshold_requeue_policy none) none

parallel_requests_threshold_example :
    let out =
      apply_policy
        (parallel_requests_threshold_requeue_policy none)
        3
        none
        2
        2
        question
        (some "q")
        (some 1)
        [] in
    ((IsUrgent 3 2 2 question (some "q") (some 1) [] ⊎ (2 < 2)) × (out ≡ (ok true, [])))
    ⊎ ((IsUrgent 3 2 2 question (some "q") (some 1) [] → ⊥)
        × (2 ≤ 2)
        × (out ≡ (ok false, requeue_task question (some "q") (some 1) ∷ [])))
parallel_requests_threshold_example =
    parallel_requests_threshold_cases 3 2 2 question (some "q") (some 1) [] none none

monitor_servers-IsHealthy_example : IsHealthy ill_a servers server_b
unfolding choose_server monitor_servers update_servers RoundRobin.choose_server
    RoundRobin.update_servers healthy_servers is_healthy
monitor_servers-IsHealthy_example =
    monitor_servers-IsHealthy pinger ill_a (round_robin turns)
      (round_robin (record { servers = server_b ∷ []; round_robin_idx = 0 })) 0 server_b none refl

wait_for_vllm_example :
    ((j : ℕ) × (j < 5)
      × (third_time (0 + j) ≡ true)
      × ((k : ℕ) → k < j → third_time (0 + k) ≡ false)
      × (wait_for_vllm 5 0 third_time ≡ (true, j)))
    ⊎ (((k : ℕ) → k < 5 → third_time (0 + k) ≡ false) × (wait_for_vllm 5 0 third_time ≡ (false, 5)))
wait_for_vllm_example = wait_for_vllm_lem 5 0 third_time

abbrev tracker : MetricsTracker
tracker = record {
  urls = "http://a" ∷ "http://b" ∷ [];
  refresh_count_per_window = 2;
  window_indexes = [];
  last_histograms = [];
  diff_histograms =
      ("http://a", metrics) ∷ ("http://b", (inf, pos 0) ∷ (finite (pos 100), pos 0) ∷ []) ∷ [];
  monitoring = true;
  monitor_tasks = [];
}

abbrev measured : LeastBusy.LeastBusy
measured = record { servers = servers; tracker = tracker }

choose_server-IsBest_example :
    IsBest tracker ("http://a" ∷ "http://b" ∷ []) "http://b" (some (finite (pos 100)))
unfolding LeastBusy.choose_server LeastBusy.score_urls LeastBusy.get_server_score lookup
    get_percentile find_bucket sorted scale LeastBusy.select_url insert business_score
    LeastBusy.least_busy LeastBusy.min_value LeastBusy.choice LeastBusy.keys_with
    LeastBusy.find_server
choose_server-IsBest_example =
    choose_server-IsBest 0 measured server_b (some (finite (pos 100))) refl

-- The second has a null organization.
abbrev raw_servers : List RawServer
raw_servers =
    record {
      url = "http://b";
      scheme = "http";
      netloc = "b";
      config = some (record {
        organization = some (some "B");
        token = some "t";
        max_parallel_requests = none;
      });
    }
    ∷ record {
      url = "http://c";
      scheme = "http";
      netloc = "c";
      config =
          some
            (record { organization = some none; token = none; max_parallel_requests = some none });
    }
    ∷ []

abbrev read_servers : List ConfiguredServer
read_servers =
    record {
      url = "http://b";
      token = some "t";
      organization = some "B";
      max_parallel_requests = some 2;
    }
    ∷ record { url = "http://c"; token = none; organization = none; max_parallel_requests = none }
    ∷ []

vllm_servers-AreReadFrom_example : AreReadFrom 2 raw_servers read_servers
unfolding vllm_servers parse_servers parse_server
vllm_servers-AreReadFrom_example = vllm_servers-AreReadFrom 2 raw_servers read_servers refl
