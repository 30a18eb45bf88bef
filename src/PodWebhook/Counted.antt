-- ===== src/PodWebhook/Counted.antt =====
-- What countWorkloadClassPods counts.
use workload_class.Prelude.{
  ℕ, suc, ◌+◌, ◌≡◌, refl, sym, ap, ◌∙◌, arith, Bool, true, false, not, ◌&&◌, Option, none, some,
  List, [], ◌∷◌, length, filter, ltb, ◌==◌, ==_iff, str_eq, Str, lookup, if◌then◌else◌, Result, ok,
  err, ◌>>=◌,
}
use workload_class.Kube.Labels.{SelectorLib}
use workload_class.Kube.Objects.{Pod}
use workload_class.Kube.Client.{Client}
use workload_class.Api.{WorkloadClass}
use workload_class.Resolve.{PodSelector, workload_class_pod_selector}
use workload_class.SpotPod.{is_pod_targeted_for_spot, is_pod_active}
use workload_class.PodWebhook.Counts.{
  PodCounts, zero_counts, CountError, is_node_spot, Nodes, cached, lookup_node, classify, count_pod,
  count_pods, is_selected, belongs, is_same_pod, keep_pods, list_workload_class_pods,
  count_workload_class_pods,
}

abbrev pub spot_by : Option Bool → Bool → Bool
spot_by none targeted = targeted
spot_by (some on_spot) targeted = on_spot

abbrev pub fallen_by : Option Bool → Bool → Bool
fallen_by none targeted = false
fallen_by (some on_spot) targeted = not on_spot && targeted

-- On a known node its label decides, and elsewhere what the Pod is targeted for.
abbrev pub runs_on_spot : Client → Pod → Bool
runs_on_spot client pod =
    spot_by (is_node_spot client pod.node_name) (is_pod_targeted_for_spot (some pod))

-- Targeted for Spot, and on a known node that is none.
abbrev pub has_fallen_back : Client → Pod → Bool
has_fallen_back client pod =
    fallen_by (is_node_spot client pod.node_name) (is_pod_targeted_for_spot (some pod))

abbrev pub count_if {ℓ} : {A : Type ℓ} → (A → Bool) → List A → ℕ
count_if test xs = length (filter test xs)

abbrev pub tally : Client → List Pod → PodCounts
tally client pods = record {
  total = length pods;
  effective_spot = count_if (runs_on_spot client) pods;
  fallback = count_if (has_fallen_back client) pods;
}

-- Each entry of the cache is what the API server answers.
abbrev IsCache : Client → Nodes → Type 0
IsCache client nodes =
    (name : Str) (n : Option Bool) → lookup name nodes ≡ some n → n ≡ is_node_spot client name

cached-value :
    (client : Client) (name : Str) (nodes : Nodes) (found : Option (Option Bool))
    → lookup name nodes ≡ found
    → IsCache client nodes
    → (cached client name nodes found).0 ≡ is_node_spot client name
cached-value client name nodes none e h = refl
cached-value client name nodes (some n) e h = h name n e

cached-IsCache :
    (client : Client) (name : Str) (nodes : Nodes) (found : Option (Option Bool))
    → IsCache client nodes
    → IsCache client (cached client name nodes found).1
unfolding lookup
cached-IsCache client name nodes none h = λ other n e. ground (arith, ==_iff name other, h other n)
cached-IsCache client name nodes (some m) h = h

abbrev grown : ℕ → Bool → ℕ
grown n b = if b then suc n else n

abbrev count_one : Option Bool → Bool → PodCounts → PodCounts
count_one n targeted c = record {
  total = suc c.total;
  effective_spot = grown c.effective_spot (spot_by n targeted);
  fallback = grown c.fallback (fallen_by n targeted);
}

classify-count_one :
    (c : PodCounts) (n : Option Bool) (targeted : Bool)
    → classify n targeted (record c { total = suc c.total }) ≡ count_one n targeted c
classify-count_one c (some true) targeted = refl
classify-count_one c (some false) true = refl
classify-count_one c (some false) false = refl
classify-count_one c none true = refl
classify-count_one c none false = refl

abbrev counted : Client → Pod → PodCounts → PodCounts
counted client pod c =
    count_one (is_node_spot client pod.node_name) (is_pod_targeted_for_spot (some pod)) c

unscheduled-node :
    (client : Client) (name : Str) → (name == []) ≡ true → is_node_spot client name ≡ none
unfolding is_node_spot
unscheduled-node client name h = rw ((==_iff name []).0 h) refl

abbrev next_counts : Client → Pod → Nodes → PodCounts → Bool → Nodes × PodCounts
next_counts client pod nodes c b =
    let found = lookup_node client pod.node_name nodes in
    let targeted = is_pod_targeted_for_spot (some pod) in
    let all = record c { total = suc c.total } in
    if b then (nodes, classify none targeted all) else (found.1, classify found.0 targeted all)

if-counted :
    (client : Client) (pod : Pod) (nodes : Nodes) (c : PodCounts) (b : Bool)
    → (pod.node_name == []) ≡ b
    → IsCache client nodes
    → let next = next_counts client pod nodes c b in
      (next.1 ≡ counted client pod c) × IsCache client next.0
unfolding lookup_node
if-counted client pod nodes c true e h =
    let n = unscheduled-node client pod.node_name e in
    (
      classify-count_one c none (is_pod_targeted_for_spot (some pod))
          ∙ ap (λ m. count_one m (is_pod_targeted_for_spot (some pod)) c) (sym n),
      h,
    )
if-counted client pod nodes c false e h =
    let found = lookup pod.node_name nodes in
    let v = cached-value client pod.node_name nodes found refl h in
    (
      classify-count_one c (cached client pod.node_name nodes found).0
            (is_pod_targeted_for_spot (some pod))
          ∙ ap (λ m. count_one m (is_pod_targeted_for_spot (some pod)) c) v,
      cached-IsCache client pod.node_name nodes found h,
    )

if-classify :
    (targeted : Bool) (c : PodCounts)
    → (if targeted then record c { effective_spot = suc c.effective_spot } else c)
      ≡ classify none targeted c
if-classify true c = refl
if-classify false c = refl

count_pod-counted :
    (client : Client) (pod : Pod) (nodes : Nodes) (c : PodCounts)
    → IsCache client nodes
    → ((count_pod client pod nodes c).1 ≡ counted client pod c)
      × IsCache client (count_pod client pod nodes c).0
unfolding count_pod
count_pod-counted client pod nodes c h =
    rw (if-classify (is_pod_targeted_for_spot (some pod)) (record c { total = suc c.total }))
      (if-counted client pod nodes c (pod.node_name == []) refl h)

abbrev merged : PodCounts → PodCounts → PodCounts
merged c d = record {
  total = c.total + d.total;
  effective_spot = c.effective_spot + d.effective_spot;
  fallback = c.fallback + d.fallback;
}

if-count {ℓ} :
    {A : Type ℓ} (b : Bool) (x : A) (n : ℕ) (xs : List A)
    → grown n b + length xs ≡ n + length (if b then x ∷ xs else xs)
if-count true x n xs = omega arith
if-count false x n xs = omega arith

counted-merged :
    (client : Client) (pod : Pod) (pods : List Pod) (c : PodCounts)
    → merged (counted client pod c) (tally client pods) ≡ merged c (tally client (pod ∷ pods))
counted-merged client pod pods c =
    let spot = runs_on_spot client pod in
    let back = has_fallen_back client pod in
    λ i. record {
      total = total i;
      effective_spot = if-count spot pod c.effective_spot (filter (runs_on_spot client) pods) i;
      fallback = if-count back pod c.fallback (filter (has_fallen_back client) pods) i;
    }
  where
    total : suc c.total + length pods ≡ c.total + suc (length pods)
    total = omega arith

count_pods-tally :
    (client : Client) (pods : List Pod) (nodes : Nodes) (c : PodCounts)
    → IsCache client nodes
    → count_pods client pods nodes c ≡ merged c (tally client pods)
unfolding count_pods
count_pods-tally client [] nodes c h = λ i. record {
  total = same c.total i;
  effective_spot = same c.effective_spot i;
  fallback = same c.fallback i;
}
  where
    same : (n : ℕ) → n ≡ n + 0
    same n = omega arith
count_pods-tally client (pod ∷ pods) nodes c h =
    let (e, cache) = count_pod-counted client pod nodes c h in
    count_pods-tally client pods (count_pod client pod nodes c).0 (count_pod client pod nodes c).1
      cache
    ∙ ap (λ d. merged d (tally client pods)) e
    ∙ counted-merged client pod pods c

merged-zero : (c : PodCounts) → merged zero_counts c ≡ c
merged-zero c = λ i. record {
  total = same c.total i;
  effective_spot = same c.effective_spot i;
  fallback = same c.fallback i;
}
  where
    same : (n : ℕ) → 0 + n ≡ n
    same n = omega arith

nothing-cached : (client : Client) → IsCache client []
unfolding lookup
nothing-cached client = λ name n e. ground arith

-- The Pod is active, has not the name of the Pod that is admitted, and is governed by the WorkloadClass.
abbrev pub is_counted : SelectorLib → Client → Pod → WorkloadClass → Bool → Pod → Bool
is_counted lib client incoming wc check pod =
    (is_pod_active (some pod) && not (is_same_pod lib incoming pod))
    && elim (belongs lib client wc check pod) [ err e ↦ false | ok b ↦ b ]

keep_step :
    (active same : Bool) (found : Result CountError Bool) (rest : Result CountError (List Pod))
    (pod : Pod) (others : List Pod)
    → ((k : List Pod) → rest ≡ ok k → k ≡ others)
    → (kept : List Pod)
    → (if not active
        then rest
        else if same
        then rest
        else found >>= λ b. rest >>= λ k. ok (if b then pod ∷ k else k))
      ≡ ok kept
    → kept ≡ (
        if (active && not same) && elim found [ err e ↦ false | ok b ↦ b ]
        then pod ∷ others
        else others)
keep_step active same found (err e) pod others h kept eq = ground arith
keep_step active same found (ok k) pod others h kept eq = let s = h k refl in ground (arith, s)

module _ (lib : SelectorLib) (client : Client) (incoming : Pod) (wc : WorkloadClass) where
  keep_pods-filter :
      (check : Bool) (pods kept : List Pod)
      → keep_pods lib client incoming wc check pods ≡ ok kept
      → kept ≡ filter (is_counted lib client incoming wc check) pods
  unfolding keep_pods
  keep_pods-filter check [] kept e = ground arith
  keep_pods-filter check (pod ∷ pods) kept e =
      keep_step (is_pod_active (some pod)) (is_same_pod lib incoming pod)
        (belongs lib client wc check pod) (keep_pods lib client incoming wc check pods) pod
        (filter (is_counted lib client incoming wc check) pods) (keep_pods-filter check pods) kept e

  listed-keep_pods :
      (selector : PodSelector) (pods : List Pod) (wcs : List WorkloadClass)
      → workload_class_pod_selector lib client wc ≡ ok selector
      → client.list_pods incoming.namespace ≡ ok pods
      → client.list_workload_classes incoming.namespace ≡ ok wcs
      → list_workload_class_pods lib client incoming wc
        ≡ keep_pods lib client incoming wc
            (ltb 1 (length wcs))
            (filter (is_selected lib selector) pods)
  unfolding list_workload_class_pods
  listed-keep_pods selector pods wcs s p w = rw (s, p, w) refl

  -- If the Pods of a WorkloadClass can be listed, they are those of the namespace that its selector
  -- matches, that are active, that have not the admitted Pod's name, and that, if the namespace has
  -- several WorkloadClasses, have this one as best match. countWorkloadClassPods then gives their number,
  -- how many of them run on Spot nodes or, unless on a known node, are targeted for Spot, and how
  -- many are targeted for Spot and on a known node that is not Spot: the cache of the nodes changes nothing.
  pub count_workload_class_pods-tally :
      (selector : PodSelector) (pods : List Pod) (wcs : List WorkloadClass) (kept : List Pod)
      → workload_class_pod_selector lib client wc ≡ ok selector
      → client.list_pods incoming.namespace ≡ ok pods
      → client.list_workload_classes incoming.namespace ≡ ok wcs
      → list_workload_class_pods lib client incoming wc ≡ ok kept
      → (kept
          ≡ filter
              (is_counted lib client incoming wc (ltb 1 (length wcs)))
              (filter (is_selected lib selector) pods))
        × (count_workload_class_pods lib client incoming wc ≡ ok (tally client kept))
  unfolding count_workload_class_pods
  count_workload_class_pods-tally selector pods wcs kept s p w e = (
    keep_pods-filter (ltb 1 (length wcs)) (filter (is_selected lib selector) pods) kept
        (sym (listed-keep_pods selector pods wcs s p w) ∙ e),
    rw e (
        ap ok (
          count_pods-tally client kept [] zero_counts (nothing-cached client)
          ∙ merged-zero (tally client kept))),
  )
