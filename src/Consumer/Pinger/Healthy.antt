-- ===== src/Consumer/Pinger/Healthy.antt =====
-- The servers that are handed out after a round of pings, and the wait for the first one.
use aristote_dispatcher.Common.{
  String, ℕ, zero, suc, ◌+◌, ◌<◌, ◌≡◌, refl, sym, ap, ◌∙◌, subst, Bool, true, false, ◌⊎◌, inl, inr,
  Option, none, some, List, [], ◌∷◌, ◌==◌, get_elem?, arith, Bool-cases, beq_refl, string_eq,
  option_eq,
}
use aristote_dispatcher.Common.Dict.{contains}
use aristote_dispatcher.Common.Exec.{Result, ok, raised}
use aristote_dispatcher.Common.Float.{Float, float_eq}
use aristote_dispatcher.Consumer.Exceptions.{Exception}
use aristote_dispatcher.Consumer.Server.{VllmServer, server_eq, server_beq_iff}
use aristote_dispatcher.Consumer.Pinger.{
  Ping, is_healthy, healthy_servers, ServerPinger, monitor_servers, wait_for_vllm,
}
use aristote_dispatcher.Consumer.Strategy.{
  Strategy, round_robin, least_busy, choose_server, update_servers, servers_of,
}
use aristote_dispatcher.Consumer.Strategy.RoundRobin
use aristote_dispatcher.Consumer.Strategy.LeastBusy

-- A healthy server that is monitored.
abbrev pub IsHealthy : (VllmServer → Ping) → List VllmServer → VllmServer → Type 0
IsHealthy ping servers s = (contains s servers ≡ true) × (is_healthy (ping s) ≡ true)

healthy_servers-IsHealthy :
    (ping : VllmServer → Ping) (servers : List VllmServer) (s : VllmServer)
    → contains s (healthy_servers ping servers) ≡ true
    → IsHealthy ping servers s
unfolding healthy_servers contains
healthy_servers-IsHealthy ping [] s h = cc
healthy_servers-IsHealthy ping (x ∷ servers) s h = elim (Bool-cases (is_healthy (ping x))) [
  | inr ill ↦
      let (mem, well) = healthy_servers-IsHealthy ping servers s (rw ill at h) in
      (ground (arith, mem), well)
  | inl well ↦ elim (Bool-cases (x == s)) [
    | inl same ↦
        (rw same refl, subst (λ y. is_healthy (ping y) ≡ true) ((server_beq_iff x s).0 same) well)
    | inr other ↦
        let (mem, well_s) =
          healthy_servers-IsHealthy ping servers s (ground (arith, well, other, h)) in
        (ground (arith, mem), well_s)
  ]
]

get_elem?-contains :
    (servers : List VllmServer) (i : ℕ) (s : VllmServer)
    → get_elem? servers i ≡ some s
    → contains s servers ≡ true
unfolding contains
get_elem?-contains [] i s h = cc
get_elem?-contains (x ∷ servers) zero s h = ground (arith, h, server_beq_iff x s)
get_elem?-contains (x ∷ servers) (suc i) s h = ground (arith, get_elem?-contains servers i s h)

-- What is handed out is one of the servers.
abbrev Among : List VllmServer → Result Exception (VllmServer × Option Float) → Type 0
Among servers (ok (s, score)) = contains s servers ≡ true
Among servers (raised e) = Unit

take_turn-Among :
    (s : RoundRobin.RoundRobin) (choice : Option VllmServer)
    → get_elem? s.servers s.round_robin_idx ≡ choice
    → Among s.servers (RoundRobin.take_turn s choice).0
take_turn-Among s none h = tt
take_turn-Among s (some choice) h = get_elem?-contains s.servers s.round_robin_idx choice h

if_any-Among :
    (servers : List VllmServer) (s : RoundRobin.RoundRobin)
    → Among s.servers (RoundRobin.if_any servers s).0
if_any-Among [] s = tt
if_any-Among (x ∷ servers) s = take_turn-Among s (get_elem? s.servers s.round_robin_idx) refl

Among-cons :
    (x : VllmServer) (servers : List VllmServer)
    (out : Result Exception (VllmServer × Option Float))
    → Among servers out
    → Among (x ∷ servers) out
unfolding contains
Among-cons x servers (raised e) a = tt
Among-cons x servers (ok (s, score)) a = ground (arith, a)

find_server-Among :
    (servers : List VllmServer) (url : Option String) (time : Option Float)
    → Among servers (LeastBusy.find_server servers url time)
unfolding LeastBusy.find_server contains
find_server-Among [] url time = tt
find_server-Among (x ∷ servers) url time = elim (Bool-cases (some x.url == url)) [
  | inl found ↦ rw found (ground (arith, beq_refl x))
  | inr other ↦ rw other (Among-cons x servers _ (find_server-Among servers url time))
]

selected_server-Among :
    (servers : List VllmServer) (selected : Result Exception (Option String × Option Float))
    → Among servers (LeastBusy.selected_server servers selected)
selected_server-Among servers (raised e) = tt
selected_server-Among servers (ok (url, time)) = find_server-Among servers url time

scored_server-Among :
    (pick : ℕ) (servers : List VllmServer)
    (scored : Result Exception (List (String × Float) × Option String))
    → Among servers (LeastBusy.scored_server pick servers scored)
scored_server-Among pick servers (raised e) = tt
scored_server-Among pick servers (ok (scores, url)) =
    selected_server-Among servers (LeastBusy.select_url pick scores url)

least_busy-Among :
    (pick : ℕ) (s : LeastBusy.LeastBusy) → Among s.servers (LeastBusy.choose_server pick s)
unfolding LeastBusy.choose_server
least_busy-Among pick s = scored_server-Among pick s.servers _

choose_server-Among : (pick : ℕ) (s : Strategy) → Among (servers_of s) (choose_server pick s).0
unfolding choose_server RoundRobin.choose_server
choose_server-Among pick (round_robin s) = if_any-Among s.servers s
choose_server-Among pick (least_busy s) = least_busy-Among pick s

servers_beq-path : (xs ys : List VllmServer) → LeastBusy.servers_beq xs ys ≡ true → xs ≡ ys
servers_beq-path [] [] h = refl
servers_beq-path [] (y ∷ ys) h = cc
servers_beq-path (x ∷ xs) [] h = cc
servers_beq-path (x ∷ xs) (y ∷ ys) h = ground (arith, h, server_beq_iff x y, servers_beq-path xs ys)

update_servers-servers_of :
    (servers : List VllmServer) (s : Strategy) → servers_of (update_servers servers s) ≡ servers
unfolding update_servers RoundRobin.update_servers LeastBusy.update_servers
update_servers-servers_of servers (round_robin s) = refl
update_servers-servers_of servers (least_busy s) =
    elim (Bool-cases (LeastBusy.servers_beq servers s.servers)) [
      | inl same ↦ rw same (sym (servers_beq-path servers s.servers same))
      | inr changed ↦ rw changed refl
    ]

-- After a round of pings, both strategies hand out only servers that are monitored and that answered the
-- round with a status from 200 to 299.
pub monitor_servers-IsHealthy :
    (p : ServerPinger) (ping : VllmServer → Ping) (strategy after : Strategy) (pick : ℕ)
    (s : VllmServer) (score : Option Float)
    → choose_server pick (monitor_servers p ping strategy) ≡ (ok (s, score), after)
    → IsHealthy ping p.servers_to_monitor s
unfolding monitor_servers
monitor_servers-IsHealthy p ping strategy after pick s score h =
    let healthy = healthy_servers ping p.servers_to_monitor in
    let among : contains s (servers_of (update_servers healthy strategy)) ≡ true =
      subst (λ out. Among (servers_of (update_servers healthy strategy)) out.0) h
        (choose_server-Among pick (update_servers healthy strategy)) in
    healthy_servers-IsHealthy ping p.servers_to_monitor s (
      subst (λ servers. contains s servers ≡ true) (update_servers-servers_of healthy strategy)
        among)

shift_misses :
    (pings : ℕ → Bool) (i n : ℕ)
    → pings i ≡ false
    → ((k : ℕ) → k < n → pings (suc i + k) ≡ false)
    → (k : ℕ) → k < suc n
    → pings (i + k) ≡ false
shift_misses pings i n missed misses zero h =
    let here : i + 0 ≡ i = omega arith in ap pings here ∙ missed
shift_misses pings i n missed misses (suc k) h =
    let there : i + suc k ≡ suc i + k = omega arith in ap pings there ∙ misses k (omega (arith, h))

-- `wait_for_vllm` ends after at most its retries: it succeeds with the first attempt that returns, having
-- slept once for each one before it, and fails just where no attempt returns, having slept after each.
pub wait_for_vllm_lem :
    (retries i : ℕ) (pings : ℕ → Bool)
    → ((j : ℕ) × (j < retries)
        × (pings (i + j) ≡ true)
        × ((k : ℕ) → k < j → pings (i + k) ≡ false)
        × (wait_for_vllm retries i pings ≡ (true, j)))
      ⊎ (((k : ℕ) → k < retries → pings (i + k) ≡ false)
          × (wait_for_vllm retries i pings ≡ (false, retries)))
unfolding wait_for_vllm
wait_for_vllm_lem zero i pings = inr (λ k h. absurd (omega (arith, h)), refl)
wait_for_vllm_lem (suc retries) i pings = elim (Bool-cases (pings i)) [
  | inl hit ↦
      let here : i + 0 ≡ i = omega arith in
      inl (0, omega arith, ap pings here ∙ hit, λ k h. absurd (omega (arith, h)), rw hit refl)
  | inr missed ↦ elim (wait_for_vllm_lem retries (suc i) pings) [
    | inl (j, below, hit, misses, out) ↦
        let there : i + suc j ≡ suc i + j = omega arith in
        inl (
          suc j,
          omega (arith, below),
          ap pings there ∙ hit,
          shift_misses pings i j missed misses,
          rw (missed, out) refl,
        )
    | inr (misses, out) ↦ inr (shift_misses pings i retries missed misses, rw (missed, out) refl)
  ]
]
