-- ===== src/Consumer/RpcServer/Tasks/Count.antt =====
-- How many suspended callbacks are about to count under a server.
use aristote_dispatcher.Common.{
  ℕ, zero, suc, ◌+◌, ◌≤◌, ◌≡◌, ap, Option, some, List, [], ◌∷◌, ◌++◌, ◌==◌, option_eq,
  if◌then◌else◌, arith, length, get_elem?, set, remove_at,
}
use aristote_dispatcher.Consumer.Server.{VllmServer, server_eq}
use aristote_dispatcher.Consumer.RpcServer.Tasks.{Task}

abbrev pub weight : VllmServer → Option VllmServer → ℕ
weight s o = if o == some s then 1 else 0

unfoldable pub pending : VllmServer → List Task → ℕ
pending s [] = 0
pending s (t ∷ tasks) = weight s t.server + pending s tasks

pub weight-le : (s : VllmServer) (o : Option VllmServer) → weight s o ≤ 1
weight-le s o = ground arith

pub weight_self : (s : VllmServer) → weight s (some s) ≡ 1
weight_self s = ground (arith, server_eq.decides s s)

pub pending-length : (s : VllmServer) (tasks : List Task) → pending s tasks ≤ length tasks
unfolding pending
pending-length s [] = omega arith
pending-length s (t ∷ tasks) = omega (arith, weight-le s t.server, pending-length s tasks)

pub pending-snoc :
    (s : VllmServer) (tasks : List Task) (t : Task)
    → pending s (tasks ++ t ∷ []) ≡ pending s tasks + weight s t.server
unfolding pending
pending-snoc s [] t = omega arith
pending-snoc s (x ∷ tasks) t = omega (arith, pending-snoc s tasks t)

pub pending-remove_at :
    (s : VllmServer) (tasks : List Task) (i : ℕ) (t : Task)
    → get_elem? tasks i ≡ some t
    → pending s (remove_at tasks i) + weight s t.server ≡ pending s tasks
unfolding pending
pending-remove_at s [] i t h = cc
pending-remove_at s (x ∷ tasks) zero t h =
    let same : x ≡ t = cc in omega (arith, ap (λ (y : Task). weight s y.server) same)
pending-remove_at s (x ∷ tasks) (suc i) t h = omega (arith, pending-remove_at s tasks i t h)

pub pending-set :
    (s : VllmServer) (tasks : List Task) (i : ℕ) (t u : Task)
    → get_elem? tasks i ≡ some t
    → u.server ≡ t.server
    → pending s (set tasks i u) ≡ pending s tasks
unfolding pending
pending-set s [] i t u h e = cc
pending-set s (x ∷ tasks) zero t u h e =
    let same : x ≡ t = cc in
    omega (arith, ap (λ (y : Task). weight s y.server) same, ap (weight s) e)
pending-set s (x ∷ tasks) (suc i) t u h e = omega (arith, pending-set s tasks i t u h e)

length-remove_at : (tasks : List Task) (i : ℕ) → length (remove_at tasks i) ≤ length tasks
length-remove_at [] i = omega arith
length-remove_at (x ∷ tasks) zero = omega arith
length-remove_at (x ∷ tasks) (suc i) = omega (arith, length-remove_at tasks i)
