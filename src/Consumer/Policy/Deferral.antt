-- ===== src/Consumer/Policy/Deferral.antt =====
-- What the three policies do with a message, and what they leave in the trace.
use aristote_dispatcher.Common.{
  ℕ, ◌≤◌, ◌<◌, ◌+◌, ◌-◌, ◌∙◌, sym, Option-cases, ◌≡◌, refl, ◌⊎◌, inl, inr, String, string_eq, Bool,
  true, false, ◌||◌, Option, none, some, List, [], ◌∷◌, ◌++◌, arith, leb, Bool-cases, eq_iff,
}
use aristote_dispatcher.Common.Exec.{Result, ok, raised}
use aristote_dispatcher.Common.Float.{Float, ltb_float}
use aristote_dispatcher.Consumer.Broker.{Effect, requeue_task}
use aristote_dispatcher.Consumer.Exceptions.{Exception, attribute_error}
use aristote_dispatcher.Consumer.Message.{IncomingMessage}
use aristote_dispatcher.Consumer.Policy.{
  QualityOfServicePolicy, warning_log_policy, performance_based_requeue_policy,
  parallel_requests_threshold_requeue_policy, apply_policy, is_urgent,
}
use aristote_dispatcher.Consumer.Settings.{validate_threshold}

-- What a policy may do: let the message through, refuse it with one task that requeues it, or raise.
abbrev pub Traced :
    IncomingMessage
    → Option String
    → Option ℕ
    → List Effect
    → Result Exception Bool × List Effect
    → Type 0
Traced message target delay trace out =
    (out ≡ (ok true, trace))
    ⊎ (out ≡ (ok false, trace ++ requeue_task message target delay ∷ []))
    ⊎ ((e : Exception) × (out ≡ (raised e, trace)))

module _ (best current maximum : ℕ) (message : IncomingMessage) (target : Option String)
    (delay : Option ℕ) (trace : List Effect) where
  abbrev outcome : QualityOfServicePolicy → Option Float → Result Exception Bool × List Effect
  outcome policy indicator =
      apply_policy policy best indicator current maximum message target delay trace

  -- Whatever the policy: a message that is let through leaves no effect, one that is refused has one
  -- task that requeues it, with the target and the delay that were given, and an exception leaves none.
  pub apply_policy_trace :
      (policy : QualityOfServicePolicy) (indicator : Option Float)
      → Traced message target delay trace (outcome policy indicator)
  unfolding apply_policy
  apply_policy_trace (warning_log_policy threshold) none = inl refl
  apply_policy_trace (warning_log_policy none) (some x) = inr (inr (_, refl))
  apply_policy_trace (warning_log_policy (some threshold)) (some x) = inl refl
  apply_policy_trace (performance_based_requeue_policy threshold) none = inl refl
  apply_policy_trace (performance_based_requeue_policy none) (some x) = inr (inr (_, refl))
  apply_policy_trace (performance_based_requeue_policy (some threshold)) (some x) =
      elim (Bool-cases (ltb_float threshold x || leb maximum current)) [
        | inl e ↦ rw e (inr (inr (_, refl)))
        | inr e ↦ rw e (inl refl)
      ]
  apply_policy_trace (parallel_requests_threshold_requeue_policy threshold) indicator =
      elim (Bool-cases (is_urgent best message.priority)) [
        | inl urgent ↦ rw urgent (inl refl)
        | inr e ↦ rw e (elim (Bool-cases (leb maximum current)) [
          | inl full ↦ rw full (inr (inl refl))
          | inr room ↦ rw room (inl refl)
        ])
      ]

  -- The priority of the message is the best one less one, or better.
  abbrev pub IsUrgent : Type 0
  IsUrgent = (priority : ℕ) × (message.priority ≡ some priority) × (best ≤ priority + 1)

  urgent_cases :
      ((is_urgent best message.priority ≡ true) × IsUrgent)
      ⊎ ((is_urgent best message.priority ≡ false) × (IsUrgent → ⊥))
  urgent_cases = elim (Option-cases message.priority) [
    | inl unset ↦
        inr (rw unset refl, λ u. (let h : Path (Option ℕ) none (some u.0) = sym unset ∙ u.1 in cc))
    | inr (p, set) ↦ elim (Bool-cases (leb (best - 1) p)) [
      | inl high ↦ inl (rw set high, (p, set, ground (arith, high)))
      | inr low ↦ inr (
        rw set low,
        λ u.
            let same : p ≡ u.0 =
              (let h : Path (Option ℕ) (some p) (some u.0) = sym set ∙ u.1 in cc) in
            ground (arith, low, same, u.2),
      )
    ]
  ]

  -- A policy on parallel requests lets a message through, with no effect, exactly if its priority is at least
  -- the best one less one or fewer requests are under way than the server takes; otherwise it refuses it, with
  -- one task that requeues it. Neither the threshold nor the indicator matters.
  pub parallel_requests_threshold_cases :
      (threshold indicator : Option Float)
      → let out = outcome (parallel_requests_threshold_requeue_policy threshold) indicator in
        ((IsUrgent ⊎ (current < maximum)) × (out ≡ (ok true, trace)))
        ⊎ ((IsUrgent → ⊥)
            × (maximum ≤ current)
            × (out ≡ (ok false, trace ++ requeue_task message target delay ∷ [])))
  unfolding apply_policy
  parallel_requests_threshold_cases threshold indicator = elim urgent_cases [
    | inl (urgent, why) ↦ rw urgent (inl (inl why, refl))
    | inr (calm, why) ↦ elim (Bool-cases (leb maximum current)) [
      | inl full ↦ rw (calm, full) (inr (why, ground (arith, full), refl))
      | inr room ↦ rw (calm, room) (inl (inr (ground (arith, room)), refl))
    ]
  ]

  -- The two outcomes, from the tests of the code.
  pub parallel_requests_threshold_lem :
      (threshold indicator : Option Float)
      → let out = outcome (parallel_requests_threshold_requeue_policy threshold) indicator in
        (((is_urgent best message.priority ≡ true) ⊎ (current < maximum)) → out ≡ (ok true, trace))
        × (is_urgent best message.priority ≡ false
            → maximum ≤ current
            → out ≡ (ok false, trace ++ requeue_task message target delay ∷ []))
  unfolding apply_policy
  parallel_requests_threshold_lem threshold indicator = (λ h. ground arith, λ e h. ground arith)

  -- The performance-based policy never defers a message: with a threshold and an indicator it raises
  -- AttributeError exactly when the indicator is over the threshold or no request more may be under way.
  performance_based_requeue_raises :
      (threshold x : Float)
      → let out = outcome (performance_based_requeue_policy (some threshold)) (some x) in
        (((ltb_float threshold x ≡ true) ⊎ (maximum ≤ current))
          → out ≡ (raised attribute_error, trace))
        × (ltb_float threshold x ≡ false → current < maximum → out ≡ (ok true, trace))
  unfolding apply_policy
  performance_based_requeue_raises threshold x = (λ h. ground arith, λ e h. ground arith)

  -- With the threshold that the settings validate, the logging policy lets every message through: for
  -- least-busy whatever the indicator is, for the other strategies if there is none.
  warning_log_validated :
      (threshold indicator : Option Float) (strategy : String)
      → ((strategy ≡ "least-busy") ⊎ (indicator ≡ none))
      → outcome (warning_log_policy (validate_threshold strategy threshold)) indicator
        ≡ (ok true, trace)
  unfolding apply_policy validate_threshold
  warning_log_validated threshold none strategy h = refl
  warning_log_validated threshold (some x) strategy (inl e) =
      ground (arith, eq_iff strategy "least-busy")
  warning_log_validated threshold (some x) strategy (inr e) = cc
