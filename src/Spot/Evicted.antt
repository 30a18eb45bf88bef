-- ===== src/Spot/Evicted.antt =====
-- Which Pods the reversion evicts, and how many.
use workload_class.Prelude.{
  ℕ, zero, suc, ◌+◌, ◌*◌, ◌<◌, ◌≡◌, ◌⊎◌, inl, inr, refl, ap, subst, arith, Bool, true, false, not,
  ◌&&◌, ◌||◌, none, List, [], ◌∷◌, All, ltb, length, if◌then◌else◌, ok, Bool-cases,
}
use workload_class.Prelude.Int.{ℤ, pos, sub_ℕ, ◌-ℤ◌, ltb_ℤ}
use workload_class.Kube.Objects.{Pod}
use workload_class.Api.{WorkloadClass}
use workload_class.SpotRatio.{spot_share_met, should_use_spot}
use workload_class.Temporal.{TimeLib, is_time_in_windows}
use workload_class.Controller.Readiness.{min_positive_duration}
use workload_class.Spot.Fallback.{pod_fallback_start_time}
use workload_class.Spot.Reversion.{
  disruption_window_enforced, retry_delay, Answered, evicted, gone, rejected, failed,
  evict_for_reversion, Limits, Choice, forced, reverted, is_past, share_met, choose, requeue_after,
  Reverted, is_waiting, has_no_owner, after_attempt, revert_pods,
}

unmet-share :
    (spot_pods total ratio : ℕ)
    → spot_share_met spot_pods total ratio ≡ false
    → spot_pods * 100 < total * ratio
unfolding spot_share_met should_use_spot
unmet-share spot_pods zero ratio h = ground arith
unmet-share spot_pods (suc total) ratio h = ground arith

module _ (times : TimeLib) (wc : WorkloadClass) (answer : Pod → Answered) (l : Limits)
    (now : ℕ) where
  abbrev pub elapsed : Pod → ℤ
  elapsed pod = sub_ℕ now (pod_fallback_start_time pod)

  -- The Pod has a controller, its eviction was granted, and when this number of Pods was on Spot it was
  -- beyond its limit, or the reversion was active, the share of Spot too low and its minimal time over.
  abbrev pub IsDue : ℕ → Pod × Choice → Type 0
  IsDue spot_pods (pod, choice) =
      (has_no_owner pod ≡ false)
      × (answer pod ≡ evicted)
      × (((choice ≡ forced) × (is_past l.max_duration (elapsed pod) ≡ true))
          ⊎ ((choice ≡ reverted)
              × (l.is_active ≡ true)
              × (share_met l spot_pods ≡ false)
              × (ltb_ℤ (elapsed pod) l.min_duration ≡ false)))

  -- Each Pod was due, counting those before it as on Spot.
  abbrev pub AllDue : ℕ → List (Pod × Choice) → Type 0
  AllDue spot_pods [] = Unit
  AllDue spot_pods (p ∷ ps) = IsDue spot_pods p × AllDue (suc spot_pods) ps

  choose-IsDue :
      (spot_pods : ℕ) (pod : Pod)
      → has_no_owner pod ≡ false
      → answer pod ≡ evicted
      → is_waiting (choose l spot_pods (elapsed pod)) ≡ false
      → IsDue spot_pods (pod, choose l spot_pods (elapsed pod))
  unfolding choose
  choose-IsDue spot_pods pod o a h = (o, a, ground (arith, h))

  left-AllDue :
      (p : Pod) (spot_pods : ℕ) (choice : Choice) (requeue : ℤ) (continue : ℤ → Reverted)
      (next : Reverted) (d : ℤ)
      → ((r : ℤ) → AllDue spot_pods (continue r).evicted_pods)
      → AllDue spot_pods
          (after_attempt times wc answer l now
            (p, choice)
            requeue
            continue
            next
            (ok (false, d))).evicted_pods
  left-AllDue p n c requeue continue next d others = elim (Bool-cases (ltb_ℤ d (pos 0))) [
    | inl b ↦ rw b tt
    | inr b ↦ rw b (others (min_positive_duration requeue d))
  ]

  attempt-AllDue :
      (p : Pod) (spot_pods : ℕ) (choice : Choice) (requeue : ℤ) (continue : ℤ → Reverted)
      (next : Reverted) (a : Answered)
      → answer p ≡ a
      → (answer p ≡ evicted → IsDue spot_pods (p, choice))
      → ((r : ℤ) → AllDue spot_pods (continue r).evicted_pods)
      → AllDue (suc spot_pods) next.evicted_pods
      → AllDue spot_pods
          (after_attempt times wc answer l now
            (p, choice)
            requeue
            continue
            next
            (evict_for_reversion times wc now a)).evicted_pods
  unfolding evict_for_reversion
  attempt-AllDue p n c requeue continue next evicted e due others rest = (due e, rest)
  attempt-AllDue p n c requeue continue next gone e due others rest =
      left-AllDue p n c requeue continue next (pos 0) others
  attempt-AllDue p n c requeue continue next (failed x) e due others rest = tt
  attempt-AllDue p n c requeue continue next (rejected b) e due others rest =
      elim (Bool-cases (disruption_window_enforced wc && not windows.0)) [
        | inl w ↦ rw w (left-AllDue p n c requeue continue next (pos 0 -ℤ windows.1) others)
        | inr w ↦ rw w (left-AllDue p n c requeue continue next (retry_delay b) others)
      ]
    where
      windows : Bool × ℤ
      windows = is_time_in_windows times now wc.disruption_policy.allowed_disruption_windows

  if-AllDue :
      (n : ℕ) (b c : Bool) (x y z : Reverted)
      → AllDue n x.evicted_pods
      → AllDue n y.evicted_pods
      → (b ≡ false → c ≡ false → AllDue n z.evicted_pods)
      → AllDue n (if b then x else if c then y else z).evicted_pods
  if-AllDue n true c x y z h j k = h
  if-AllDue n false true x y z h j k = j
  if-AllDue n false false x y z h j k = k refl refl

  -- Every Pod that the reversion evicts has a controller, its eviction was granted, and it was due: beyond
  -- the limit of the guardrails, or, under Active reversion, past its minimal time on fallback while the
  -- share of Spot, with the Pods that were evicted before it, was still too low.
  pub revert_pods-AllDue :
      (pods : List Pod) (spot_pods : ℕ) (requeue : ℤ)
      → AllDue spot_pods (revert_pods times wc answer l now pods spot_pods requeue).evicted_pods
  unfolding revert_pods
  revert_pods-AllDue [] n requeue = tt
  revert_pods-AllDue (pod ∷ pods) n requeue =
      let choice = choose l n (elapsed pod) in
      if-AllDue n (has_no_owner pod) (is_waiting choice)
        (revert_pods times wc answer l now pods n requeue)
        (revert_pods times wc answer l now pods n (requeue_after l n requeue (elapsed pod))) _
        (revert_pods-AllDue pods n requeue)
        (revert_pods-AllDue pods n (requeue_after l n requeue (elapsed pod)))
        (λ o w.
          attempt-AllDue pod n choice requeue (λ r. revert_pods times wc answer l now pods n r)
            (revert_pods times wc answer l now pods (suc n) requeue) (answer pod) refl
            (λ e. choose-IsDue n pod o e w) (λ r. revert_pods-AllDue pods n r)
            (revert_pods-AllDue pods (suc n) requeue))

  AllDue-bounded :
      (n : ℕ) (ps : List (Pod × Choice))
      → l.max_duration ≡ none
      → AllDue n ps
      → (ps ≡ []) ⊎ ((n + length ps) * 100 < l.total * l.spot_ratio + 100)
  AllDue-bounded n [] u h = inl refl
  AllDue-bounded n (p ∷ []) u (due, rest) = inr (one n p u due)
    where
      one :
          (m : ℕ) (q : Pod × Choice)
          → l.max_duration ≡ none
          → IsDue m q
          → (m + 1) * 100 < l.total * l.spot_ratio + 100
      one m (pod, c) u (o, a, inl (f, past)) = absurd (ground (arith, u, past))
      one m (pod, c) u (o, a, inr (r, act, s, t)) =
          let low = unmet-share m l.total l.spot_ratio (ground (arith, s)) in omega (arith, low)
  AllDue-bounded n (p ∷ q ∷ ps) u (due, rest) = elim (AllDue-bounded (suc n) (q ∷ ps) u rest) [
    | inl e ↦ ground arith
    | inr b ↦ inr (omega (arith, b))
  ]

  -- If no guardrail limits the time on fallback, then the reversion evicts no Pod, or no more than lift the
  -- share of Spot to its ratio: less than one Pod above it, with the evicted Pods counted as Spot.
  pub revert_pods-bounded :
      (pods : List Pod) (spot_pods : ℕ) (requeue : ℤ)
      → l.max_duration ≡ none
      → let gone_pods = (revert_pods times wc answer l now pods spot_pods requeue).evicted_pods in
        (gone_pods ≡ []) ⊎ ((spot_pods + length gone_pods) * 100 < l.total * l.spot_ratio + 100)
  revert_pods-bounded pods n requeue u = AllDue-bounded n _ u (revert_pods-AllDue pods n requeue)

  share_met-more : (n k : ℕ) → share_met l n ≡ true → share_met l (n + k) ≡ true
  unfolding spot_share_met should_use_spot
  share_met-more n k h = more l.total h
    where
      more :
          (total : ℕ)
          → (not (ltb 0 l.spot_ratio) || spot_share_met n total l.spot_ratio) ≡ true
          → (not (ltb 0 l.spot_ratio) || spot_share_met (n + k) total l.spot_ratio) ≡ true
      more zero j = ground arith
      more (suc total) j = ground arith

  -- Nothing keeps the Pod from being evicted but the share of Spot.
  abbrev pub IsReady : Pod → Type 0
  IsReady pod =
      (has_no_owner pod ≡ false)
      × (answer pod ≡ evicted)
      × (ltb_ℤ (elapsed pod) l.min_duration ≡ false)

  abbrev Progresses : ℕ → List Pod → Reverted → Type 0
  Progresses n pods r =
      (length r.evicted_pods ≡ length pods) ⊎ (share_met l (n + length r.evicted_pods) ≡ true)

  waits-met :
      (n : ℕ) (pod : Pod)
      → l.is_active ≡ true
      → IsReady pod
      → is_waiting (choose l n (elapsed pod)) ≡ true
      → share_met l n ≡ true
  unfolding choose
  waits-met n pod act h w = let (o, a, m) = h in ground (arith, o, a, m, w)

  evicted-Progresses :
      (n : ℕ) (pod : Pod) (pods : List Pod) (c : Choice) (requeue : ℤ) (continue : ℤ → Reverted)
      (next : Reverted)
      → answer pod ≡ evicted
      → Progresses (suc n) pods next
      → Progresses n (pod ∷ pods) (
          after_attempt times wc answer l now
            (pod, c)
            requeue
            continue
            next
            (evict_for_reversion times wc now (answer pod)))
  unfolding evict_for_reversion
  evicted-Progresses n pod pods c requeue continue next e (inl h) = rw e (inl (ap suc h))
  evicted-Progresses n pod pods c requeue continue next e (inr h) =
      rw e (inr (subst (λ m. share_met l m ≡ true) (omega arith) h))

  -- Under Active reversion, if every Pod has a controller, is past its minimal time on fallback and may be
  -- evicted, then the reversion evicts them all, or enough for the share of Spot to meet its ratio.
  pub revert_pods-progress :
      (pods : List Pod) (spot_pods : ℕ) (requeue : ℤ)
      → l.is_active ≡ true
      → All IsReady pods
      → let gone_pods = (revert_pods times wc answer l now pods spot_pods requeue).evicted_pods in
        (length gone_pods ≡ length pods) ⊎ (share_met l (spot_pods + length gone_pods) ≡ true)
  unfolding revert_pods
  revert_pods-progress [] n requeue act h = inl refl
  revert_pods-progress (pod ∷ pods) n requeue act h =
      let (o, a, m) = h.0 in
      elim (Bool-cases (is_waiting (choose l n (elapsed pod)))) [
        | inl w ↦ rw (o, w) (inr (share_met-more n _ (waits-met n pod act h.0 w)))
        | inr w ↦
            rw (o, w)
              (evicted-Progresses n pod pods (choose l n (elapsed pod)) requeue
                (λ r. revert_pods times wc answer l now pods n r)
                (revert_pods times wc answer l now pods (suc n) requeue) a
                (revert_pods-progress pods (suc n) requeue act h.1))
      ]
