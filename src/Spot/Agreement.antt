-- ===== src/Spot/Agreement.antt =====
-- The controller and the placement webhook count the Pods of a WorkloadClass alike.
use workload_class.Prelude.{
  suc, ◌≡◌, refl, sym, ap, ◌∙◌, subst, arith, Bool, true, false, not, Option, none, some, List, [],
  ◌∷◌, length, filter, All, contains, ◌==◌, ==_iff, str_eq, Str, if◌then◌else◌, Result, ok, err,
  ◌>>=◌,
}
use workload_class.Kube.Labels.{SelectorLib}
use workload_class.Kube.Objects.{Pod}
use workload_class.Kube.Client.{Client}
use workload_class.Api.{WorkloadClass}
use workload_class.SpotPod.{is_pod_targeted_for_spot, is_pod_active}
use workload_class.PodWebhook.Counts.{CountError, is_node_spot, belongs, is_same_pod, keep_pods}
use workload_class.PodWebhook.Counted.{spot_by, fallen_by, runs_on_spot, has_fallen_back}
use workload_class.Spot.Fallback.{
  WorkloadPods, effective_spot, place_pod, add_pod, add_if, classify_pods,
}

-- The node that a Pod is bound to can be read, and is Spot exactly if it is in the list of the Spot nodes.
abbrev pub IsKnown : Client → List Str → Pod → Type 0
IsKnown client spot_nodes pod =
    is_node_spot client pod.node_name
    ≡ (if pod.node_name == [] then none else some (contains spot_nodes pod.node_name))

-- The same numbers.
abbrev pub Agrees : Client → WorkloadPods → List Pod → Type 0
Agrees client p pods =
    (p.active ≡ length pods)
    × (effective_spot p ≡ length (filter (runs_on_spot client) pods))
    × (length p.fallback ≡ length (filter (has_fallen_back client) pods))

place-counts :
    (unscheduled on_spot targeted : Bool) (seen : Option Bool) (pod : Pod) (p : WorkloadPods)
    → seen ≡ (if unscheduled then none else some on_spot)
    → ((place_pod unscheduled on_spot targeted pod p).active ≡ p.active)
      × (effective_spot (place_pod unscheduled on_spot targeted pod p)
          ≡ (if spot_by seen targeted then suc (effective_spot p) else effective_spot p))
      × (length (place_pod unscheduled on_spot targeted pod p).fallback
          ≡ (if fallen_by seen targeted then suc (length p.fallback) else length p.fallback))
place-counts true on_spot true seen pod p e = rw e (refl, omega arith, refl)
place-counts true on_spot false seen pod p e = rw e (refl, refl, refl)
place-counts false true targeted seen pod p e = rw e (refl, omega arith, refl)
place-counts false false true seen pod p e = rw e (refl, refl, refl)
place-counts false false false seen pod p e = rw e (refl, refl, refl)

length-if {ℓ} :
    {A : Type ℓ} (b : Bool) (x : A) (xs : List A)
    → length (if b then x ∷ xs else xs) ≡ (if b then suc (length xs) else length xs)
length-if true x xs = refl
length-if false x xs = refl

add-Agrees :
    (client : Client) (spot_nodes : List Str) (pod : Pod) (p : WorkloadPods) (pods : List Pod)
    → IsKnown client spot_nodes pod
    → Agrees client p pods
    → Agrees client (add_pod spot_nodes pod p) (pod ∷ pods)
unfolding add_pod
add-Agrees client spot_nodes pod p pods known (a, s, f) =
    let targeted = is_pod_targeted_for_spot (some pod) in
    let counted = record p { active = suc p.active } in
    let (active, spot, back) =
      place-counts (pod.node_name == []) (contains spot_nodes pod.node_name) targeted
        (is_node_spot client pod.node_name) pod counted known in
    (
      active ∙ ap suc a,
      spot
          ∙ ap (λ n. if runs_on_spot client pod then suc n else n) s
          ∙ sym (length-if (runs_on_spot client pod) pod _),
      back
          ∙ ap (λ n. if has_fallen_back client pod then suc n else n) f
          ∙ sym (length-if (has_fallen_back client pod) pod _),
    )

if-Agrees :
    (client : Client) (spot_nodes : List Str) (pod : Pod) (b : Bool) (p : WorkloadPods)
    (pods : List Pod)
    → IsKnown client spot_nodes pod
    → Agrees client p pods
    → Agrees client (add_if b spot_nodes pod p) (if b then pod ∷ pods else pods)
if-Agrees client spot_nodes pod true p pods known h =
    add-Agrees client spot_nodes pod p pods known h
if-Agrees client spot_nodes pod false p pods known h = h

abbrev AgreesOk : Client → Result CountError WorkloadPods → List Pod → Type 0
AgreesOk client r kept = (p : WorkloadPods) × (r ≡ ok p) × Agrees client p kept

kept_after :
    Bool
    → Bool
    → Pod
    → Result CountError Bool
    → Result CountError (List Pod)
    → Result CountError (List Pod)
kept_after active same pod found rest =
    if not active
    then rest
    else if same
    then rest
    else found >>= λ b. rest >>= λ k. ok (if b then pod ∷ k else k)

step-Agrees :
    (client : Client) (spot_nodes : List Str) (pod : Pod) (active same : Bool)
    (found : Result CountError Bool) (rest : Result CountError (List Pod))
    (others : Result CountError WorkloadPods) (kept : List Pod)
    → IsKnown client spot_nodes pod
    → same ≡ false
    → ((k : List Pod) → rest ≡ ok k → AgreesOk client others k)
    → kept_after active same pod found rest ≡ ok kept
    → AgreesOk client
        (if not active
          then others
          else (found >>= λ b. others >>= λ p. ok (add_if b spot_nodes pod p)))
        kept
unfolding kept_after
step-Agrees client spot_nodes pod false same found rest others kept known s h e = h kept e
step-Agrees client spot_nodes pod true true found rest others kept known s h e = ground arith
step-Agrees client spot_nodes pod true false (err x) rest others kept known s h e = ground arith
step-Agrees client spot_nodes pod true false (ok b) (err x) others kept known s h e = ground arith
step-Agrees client spot_nodes pod true false (ok b) (ok k) others kept known s h e =
    let (p, is, agrees) = h k refl in
    let same_list : (if b then pod ∷ k else k) ≡ kept = ground arith in
    (
      add_if b spot_nodes pod p,
      rw is refl,
      subst (λ l. Agrees client (add_if b spot_nodes pod p) l) same_list
          (if-Agrees client spot_nodes pod b p k known agrees),
    )

module _ (lib : SelectorLib) (client : Client) (wc : WorkloadClass) (spot_nodes : List Str)
    (incoming : Pod) (unnamed : incoming.name ≡ []) where
  different : (pod : Pod) → is_same_pod lib incoming pod ≡ false
  different pod = ground (arith, unnamed, ==_iff incoming.name [])

  -- If the nodes of all Pods can be read and are Spot exactly if they are listed so, then wherever the webhook
  -- can collect the Pods of a WorkloadClass for a Pod without a name, the controller can classify them, and
  -- counts as many: in all, on Spot or waiting for it, and on fallback.
  pub classify_pods-Agrees :
      (check : Bool) (pods kept : List Pod)
      → All (IsKnown client spot_nodes) pods
      → keep_pods lib client incoming wc check pods ≡ ok kept
      → (p : WorkloadPods) × (classify_pods lib client wc spot_nodes check pods ≡ ok p)
        × Agrees client p kept
  unfolding classify_pods keep_pods
  classify_pods-Agrees check [] kept known e = (_, refl, rw (← nil) (refl, refl, refl))
    where
      nil : [] ≡ kept
      nil = ground arith
  classify_pods-Agrees check (pod ∷ pods) kept known e =
      step-Agrees client spot_nodes pod (is_pod_active (some pod)) (is_same_pod lib incoming pod)
        (belongs lib client wc check pod) (keep_pods lib client incoming wc check pods)
        (classify_pods lib client wc spot_nodes check pods) kept known.0 (different pod)
        (λ k j. classify_pods-Agrees check pods k known.1 j) (unfold kept_after in e)
