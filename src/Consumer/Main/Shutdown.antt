-- ===== src/Consumer/Main/Shutdown.antt =====
-- How the process ends.
use mathlib.Core.List.{Mem, mem-cons_self, mem-cons_of_mem}
use aristote_dispatcher.Common.{
  ◌≡◌, refl, sym, ◌∙◌, ◌⊎◌, inl, inr, Bool, false, Option, none, some, List, [], ◌∷◌, Bool-cases,
}
use aristote_dispatcher.Common.Exec.{Result, ok, raised, Result-cases}
use aristote_dispatcher.Consumer.Exceptions.{Exception}
use aristote_dispatcher.Consumer.Main.{Process, stop_tracker, connected_process, main_consumer}
use aristote_dispatcher.Consumer.Pinger.{ServerPinger, wait_for_vllms}
use aristote_dispatcher.Consumer.Pinger
use aristote_dispatcher.Consumer.Server.{VllmServer}
use aristote_dispatcher.Consumer.Strategy.{Strategy, round_robin, least_busy}
use aristote_dispatcher.Consumer.Strategy.Tracker.{stop_monitor}
use aristote_dispatcher.Consumer.RpcServer.Connection.{Call, Limits, Session, first_connect}
use aristote_dispatcher.Consumer.RpcServer.State.{RpcServer}

-- A strategy whose tracker, if it has one, monitors nothing.
abbrev pub IsQuiet : Strategy → Type 0
IsQuiet (round_robin s) = Unit
IsQuiet (least_busy s) = s.tracker.monitoring ≡ false

stop_tracker-IsQuiet : (s : Strategy) → IsQuiet (stop_tracker s)
unfolding stop_tracker stop_monitor
stop_tracker-IsQuiet (round_robin s) = tt
stop_tracker-IsQuiet (least_busy s) = elim (Bool-cases s.tracker.monitoring) [
  | inl on ↦ rw on refl
  | inr off ↦ rw off refl
]

-- The process ended because something raised: no pinger was started, and if no server was ready it asked
-- nothing of the broker.
pub record IsAborted (done : List (Option Exception)) (out : Result Exception Unit × Process)
    : Type 0 where
  pub e : Exception
  pub raises : out.0 ≡ raised e
  pub no_pinger : out.1.pinger ≡ none
  pub no_calls : wait_for_vllms done ≡ raised e → out.1.session.calls ≡ []

-- It ended after the signal: a server had been ready, and nothing is monitored any more.
pub record IsStopped (done : List (Option Exception)) (out : Result Exception Unit × Process)
    : Type 0 where
  pub returns : out.0 ≡ ok tt
  pub ready : Mem none done
  pub pinger : ServerPinger
  pub has_pinger : out.1.pinger ≡ some pinger
  pub pinger_off : pinger.monitoring ≡ false
  pub tracker_off : IsQuiet out.1.session.rpc.strategy

ready_of_ok : (done : List (Option Exception)) → wait_for_vllms done ≡ ok tt → Mem none done
unfolding wait_for_vllms
ready_of_ok [] h = cc
ready_of_ok (none ∷ done) h = mem-cons_self
ready_of_ok (some e ∷ []) h = cc
ready_of_ok (some e ∷ (o ∷ done)) h = mem-cons_of_mem (some e) (ready_of_ok (o ∷ done) h)

connected_process_outcomes :
    (done : List (Option Exception)) (closes : Bool) (meanwhile : RpcServer → RpcServer)
    (servers : List VllmServer) (out : Result Exception Unit × Session)
    → wait_for_vllms done ≡ ok tt
    → IsAborted done (connected_process closes meanwhile servers out)
      ⊎ IsStopped done (connected_process closes meanwhile servers out)
unfolding Pinger.monitor Pinger.stop_monitor
connected_process_outcomes done closes meanwhile servers (raised e, s) ready = inl (record {
  e = e;
  raises = refl;
  no_pinger = refl;
  no_calls = λ unready.
      (let both : Path (Result Exception Unit) (ok tt) (raised e) = sym ready ∙ unready in cc);
})
connected_process_outcomes done closes meanwhile servers (ok u, s) ready = inr (record {
  returns = refl;
  ready = ready_of_ok done ready;
  pinger = _;
  has_pinger = refl;
  pinger_off = refl;
  tracker_off = stop_tracker-IsQuiet _;
})

-- Whatever happens to the server object until the shutdown: the process either ends in an exception, with no
-- pinger started, and nothing asked of the broker if no server was ready; or it ends after the signal, in
-- which case a server had been ready, and neither the pinger nor a tracker monitors any more.
pub main_consumer_outcomes :
    (done : List (Option Exception)) (returns : Call → Bool) (l : Limits) (closes : Bool)
    (meanwhile : RpcServer → RpcServer) (rpc : RpcServer)
    → IsAborted done (main_consumer done returns l closes meanwhile rpc)
      ⊎ IsStopped done (main_consumer done returns l closes meanwhile rpc)
unfolding main_consumer
main_consumer_outcomes done returns l closes meanwhile rpc =
    elim (Result-cases (wait_for_vllms done)) [
      | inr (e, unready) ↦
          rw unready (inl (record { e = e; raises = refl; no_pinger = refl; no_calls = λ _. refl }))
      | inl (u, ready) ↦ rw ready (
          connected_process_outcomes done closes meanwhile rpc.settings.vllm_servers
            (first_connect returns l (record { rpc = rpc; calls = [] })) ready)
    ]
