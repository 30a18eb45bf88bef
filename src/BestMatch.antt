-- ===== src/BestMatch.antt =====
-- internal/utils/workloadclass.go: which WorkloadClass governs a Pod.
pub mod Better
pub mod Selected
use workload_class.Prelude.{
  ℕ, zero, suc, ◌+◌, Bool, true, false, not, ◌&&◌, ◌||◌, Option, none, some, List, [], ◌∷◌, ◌++◌,
  length, ltb, ◌==◌, str_eq, Str, lit, lookup, insert, if◌then◌else◌, Result, ok, err, ◌>>=◌,
}
use workload_class.Prelude.Int.{ℤ, pos, negsuc, ltb_ℤ, eqb_ℤ}
use workload_class.Kube.Labels.{Labels, LabelSelector, SelectorLib}
use workload_class.Kube.Objects.{
  Pod, Namespace, Condition, ConditionStatus, condition_true, condition_false, condition_unknown,
}
use workload_class.Kube.Client.{Client, GetError, not_found, get_failed}
use workload_class.Api.{WorkloadClass, enforced_class_label}
use workload_class.Api.Reason

-- The variables of the loop of selectBestMatchFromList. `others` is keyed by "namespace/name".
pub record Selection : Type 0 where
  pub best : Option WorkloadClass
  pub others : List (Str × ℤ)
  pub max_specificity : ℤ

unfoldable pub get_specificity : Option LabelSelector → ℕ
get_specificity none = 0
get_specificity (some s) = length s.match_labels + length s.match_expressions

abbrev pub namespaced_name : WorkloadClass → Str
namespaced_name wc = wc.namespace ++ (lit "/" ++ wc.name)

-- `wc.CreationTimestamp.Before(&bestMatch.CreationTimestamp)`: none is the nil dereference.
abbrev pub older : WorkloadClass → Option WorkloadClass → Option Bool
older wc none = none
older wc (some b) = some (ltb wc.creation_timestamp b.creation_timestamp)

abbrev pub record_best : Option WorkloadClass → ℤ → List (Str × ℤ) → List (Str × ℤ)
record_best none spec others = others
record_best (some b) spec others = insert (namespaced_name b) spec others

-- The body of updateBestMatch behind its first two lines.
abbrev pub replace_best : WorkloadClass → Selection → ℤ → Bool → Selection
replace_best wc s spec better =
    if better
    then record {
      best = some wc;
      others = record_best s.best s.max_specificity s.others;
      max_specificity = spec;
    }
    else record s { others = insert (namespaced_name wc) spec s.others }

abbrev pub decide_best : WorkloadClass → Selection → ℤ → Option Bool → Option Selection
decide_best wc s spec none = none
decide_best wc s spec (some equal_older) =
    some (replace_best wc s spec (ltb_ℤ s.max_specificity spec || equal_older))

-- updateBestMatch; none is a panic.
unfoldable pub update_best_match : WorkloadClass → Selection → Option Selection
update_best_match wc s =
    let spec = pos (get_specificity wc.pod_selector) in
    decide_best wc s spec (if eqb_ℤ spec s.max_specificity then older wc s.best else some false)

abbrev pub is_none {ℓ} : {A : Type ℓ} → Option A → Bool
is_none none = true
is_none (some a) = false

module _ (lib : SelectorLib) where
  -- LabelSelectorAsSelector and Matches: nil selects nothing, an invalid selector is skipped.
  unfoldable pub selects : Option LabelSelector → Labels → Bool
  selects none labels = false
  selects (some s) labels = lib.valid s && lib.matches s labels

  -- The WorkloadClass is in the Pod's namespace, is not being deleted, and selects the Pod.
  unfoldable pub is_candidate : Pod → WorkloadClass → Bool
  unfolding selects
  is_candidate pod wc =
      (wc.namespace == pod.namespace)
      && (is_none wc.deletion_timestamp && selects wc.pod_selector pod.labels)

  -- The loop of selectBestMatchFromList.
  unfoldable pub select_from : Pod → List WorkloadClass → Selection → Option Selection
  select_from pod [] s = some s
  select_from pod (wc ∷ wcs) s =
      if is_candidate pod wc
      then elim (update_best_match wc s) [ none ↦ none | some s' ↦ select_from pod wcs s' ]
      else select_from pod wcs s

  unfoldable pub select_best_match_from_list : Pod → List WorkloadClass → Option Selection
  select_best_match_from_list pod wcs =
      select_from pod wcs (record { best = none; others = []; max_specificity = negsuc 0 })
