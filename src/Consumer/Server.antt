-- ===== src/Consumer/Server.antt =====
-- vllm_server.py: an inference server. The dataclass is frozen and compares by its fields.
use aristote_dispatcher.Common.{
  ℕ, String, Bool, ◌&&◌, true, Option, ◌≡◌, ◌↔◌, arith, Eq, ◌==◌, string_eq, nat_eq, option_eq,
  eq_iff, nat_beq_iff, option_beq_iff,
}

pub record VllmServer : Type 0 where
  pub url : String
  pub token : Option String
  pub organization : String
  pub max_parallel_requests : ℕ

abbrev pub server_beq : VllmServer → VllmServer → Bool
server_beq a b =
    a.url == b.url
    && a.token == b.token
    && a.organization == b.organization
    && a.max_parallel_requests == b.max_parallel_requests

pub server_beq_iff : (a b : VllmServer) → (server_beq a b ≡ true) ↔ (a ≡ b)
server_beq_iff a b = ground (
  arith,
  eq_iff a.url b.url,
  option_beq_iff a.token b.token,
  eq_iff a.organization b.organization,
  nat_beq_iff a.max_parallel_requests b.max_parallel_requests,
)

instance abbrev pub server_eq : Eq VllmServer
server_eq = record { test = server_beq; decides = server_beq_iff }
