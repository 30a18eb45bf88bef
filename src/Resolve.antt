-- ===== src/Resolve.antt =====
-- internal/utils/workloadclass.go: the WorkloadClass of a Pod by the API server's state, and the
-- same from a list that was fetched before.
pub mod Agreement
use workload_class.Prelude.{
  ℕ, zero, suc, ◌+◌, Bool, true, false, not, ◌&&◌, ◌||◌, Option, none, some, List, [], ◌∷◌, ◌++◌,
  length, ltb, ◌==◌, str_eq, Str, lit, lookup, insert, if◌then◌else◌, Result, ok, err, ◌>>=◌,
  filter, map,
}
use workload_class.Prelude.Int.{ℤ, pos, negsuc, ltb_ℤ, eqb_ℤ}
use workload_class.Kube.Labels.{Labels, LabelSelector, SelectorLib}
use workload_class.Kube.Objects.{
  Pod, Namespace, Condition, ConditionStatus, condition_true, condition_false, condition_unknown,
}
use workload_class.Kube.Client.{Client, GetError, not_found, get_failed}
use workload_class.Api.{WorkloadClass, enforced_class_label}
use workload_class.Api.Reason
use workload_class.BestMatch.{Selection, is_none, select_best_match_from_list}

-- The errors that the functions wrap; `panicked` is a nil dereference in updateBestMatch.
pub data ResolveError : Type 0 where
  get_namespace_failed : Str → ResolveError
  get_enforced_failed : Str → ResolveError
  list_classes_failed : Str → ResolveError
  invalid_pod_selector : ResolveError
  panicked : ResolveError

-- The `if err != nil` behind the read of the Namespace, and what is returned instead.
abbrev pub active_only : Result GetError WorkloadClass → Result ResolveError (Option WorkloadClass)
active_only (err not_found) = ok none
active_only (err (get_failed e)) = err (get_enforced_failed e)
active_only (ok wc) = ok (if is_none wc.deletion_timestamp then some wc else none)

abbrev pub enforced_name : Namespace → Option Str
enforced_name ns = lookup enforced_class_label ns.labels

module _ (client : Client) where
  unfoldable pub named_enforced : Str → Option Str → Result ResolveError (Option WorkloadClass)
  named_enforced namespace none = ok none
  named_enforced namespace (some []) = ok none
  named_enforced namespace (some (c ∷ cs)) =
      active_only (client.get_workload_class namespace (c ∷ cs))

  unfoldable pub namespace_enforced_workload_class :
      Str → Result ResolveError (Option WorkloadClass)
  unfolding named_enforced
  namespace_enforced_workload_class namespace = elim (client.get_namespace namespace) [
    | err e ↦ elim e [ not_found ↦ ok none | get_failed text ↦ err (get_namespace_failed text) ]
    | ok ns ↦ named_enforced namespace (enforced_name ns)
  ]

-- A best match, and the names that the AmbiguousMatch event lists (no names: no event).
pub record Match : Type 0 where
  pub best : Option WorkloadClass
  pub ambiguous : List Str

-- emitAmbiguousMatchWarning: the matches as specific as the best one.
unfoldable pub ambiguous_matches : Selection → List Str
ambiguous_matches s = map (λ p. p.0) (filter (λ p. eqb_ℤ p.1 s.max_specificity) s.others)

abbrev pub as_match : Option Selection → Result ResolveError Match
as_match none = err panicked
as_match (some s) = ok (record { best = s.best; ambiguous = ambiguous_matches s })

-- A labels.Selector: Everything, or the one of a valid LabelSelector.
pub data PodSelector : Type 0 where
  everything : PodSelector
  by_selector : LabelSelector → PodSelector

abbrev pub best_of : Option Selection → Result ResolveError (Option WorkloadClass)
best_of none = err panicked
best_of (some s) = ok s.best

module _ (lib : SelectorLib) where
  abbrev pub match_listed : Pod → Result Str (List WorkloadClass) → Result ResolveError Match
  match_listed pod (err e) = err (list_classes_failed e)
  match_listed pod (ok wcs) = as_match (select_best_match_from_list lib pod wcs)

  -- FindBestMatchWorkloadClass; `pod` is none for nil.
  unfoldable pub find_best_match_workload_class : Client → Option Pod → Result ResolveError Match
  find_best_match_workload_class client none = ok (record { best = none; ambiguous = [] })
  find_best_match_workload_class client (some pod) =
      namespace_enforced_workload_class client pod.namespace >>= λ enforced. elim enforced [
        | some wc ↦ ok (record { best = some wc; ambiguous = [] })
        | none ↦ match_listed pod (client.list_workload_classes pod.namespace)
      ]

  abbrev pub governs_namespace : Pod → WorkloadClass → Bool
  governs_namespace pod wc = (wc.namespace == pod.namespace) && is_none wc.deletion_timestamp

  -- BestMatchWorkloadClassForPod
  unfoldable pub best_match_workload_class_for_pod :
      Option Pod
      → Option WorkloadClass
      → List WorkloadClass
      → Result ResolveError (Option WorkloadClass)
  best_match_workload_class_for_pod none enforced wcs = ok none
  best_match_workload_class_for_pod (some pod) none wcs =
      best_of (select_best_match_from_list lib pod wcs)
  best_match_workload_class_for_pod (some pod) (some wc) wcs =
      if governs_namespace pod wc
      then ok (some wc)
      else best_of (select_best_match_from_list lib pod wcs)

  abbrev pub own_selector : Option LabelSelector → Result ResolveError PodSelector
  own_selector none = ok everything
  own_selector (some s) = if lib.valid s then ok (by_selector s) else err invalid_pod_selector

  abbrev pub enforces : WorkloadClass → Namespace → Bool
  enforces wc ns = elim (enforced_name ns) [ none ↦ wc.name == [] | some n ↦ n == wc.name ]

  -- WorkloadClassPodSelector
  unfoldable pub workload_class_pod_selector :
      Client → WorkloadClass → Result ResolveError PodSelector
  workload_class_pod_selector client wc = elim (client.get_namespace wc.namespace) [
    | err e ↦ elim e [
      | not_found ↦ own_selector wc.pod_selector
      | get_failed text ↦ err (get_namespace_failed text)
    ]
    | ok ns ↦ if enforces wc ns then ok everything else own_selector wc.pod_selector
  ]

abbrev pub is_true : ConditionStatus → Bool
is_true condition_true = true
is_true _ = false

-- IsValidated
unfoldable pub is_validated : Option Condition → Bool
is_validated none = false
is_validated (some c) = is_true c.status || (c.reason == Reason.selector_overlap)
