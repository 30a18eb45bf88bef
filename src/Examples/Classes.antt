-- ===== src/Examples/Classes.antt =====
-- Which WorkloadClass governs the sample Pod.
use workload_class.Prelude.{
  ◌≡◌, refl, ◌↔◌, arith, lookup, str_beq, Bool, true, some, [], ◌∷◌, str_eq, lit, ok,
}
use workload_class.Kube.Labels.{Labels, LabelSelector, op_other, satisfies}
use workload_class.Kube.Client.{IsFaithful}
use workload_class.Selector.{selectors_overlap}
use workload_class.Selector.Overlap.{selectors_overlap_iff}
use workload_class.BestMatch.{Selection, select_best_match_from_list}
use workload_class.BestMatch.Selected.{Chosen, select_best_match_best}
use workload_class.Resolve.{
  named_enforced, namespace_enforced_workload_class, find_best_match_workload_class,
  best_match_workload_class_for_pod,
}
use workload_class.Resolve.Agreement.{best_only, find_best_match-for_pod}
use workload_class.Examples.Samples.{
  selector_lib, app_web, app_in, pod, web_class, api_class, client,
}

selectors_overlap_iff_example :
    (d : Bool) × (selectors_overlap selector_lib (some app_web) (some app_in) ≡ ok d)
    × ((d ≡ true) ↔ ((l : Labels) × (satisfies app_web l ≡ true) × (satisfies app_in l ≡ true)))
selectors_overlap_iff_example = selectors_overlap_iff selector_lib app_web app_in refl refl

-- A selector with an operator that does not exist.
abbrev odd : LabelSelector
odd = record {
  match_labels = [];
  match_expressions =
      record { key = lit "app"; operator = op_other (lit "Near"); values = [] } ∷ [];
}

client-IsFaithful : IsFaithful client
client-IsFaithful = record { get_namespaced = λ ns name e. ground arith }

select_best_match_best_example :
    (t : Selection) × (select_best_match_from_list selector_lib pod (web_class ∷ api_class ∷ [])
      ≡ some t)
    × Chosen selector_lib pod (web_class ∷ api_class ∷ []) t.best
select_best_match_best_example =
    select_best_match_best selector_lib pod (web_class ∷ api_class ∷ [])

enforced : namespace_enforced_workload_class client (lit "shop") ≡ ok (some web_class)
unfolding namespace_enforced_workload_class named_enforced lookup lit str_beq
enforced = refl

find_best_match-for_pod_example :
    best_only (find_best_match_workload_class selector_lib client (some pod))
    ≡ best_match_workload_class_for_pod selector_lib
        (some pod)
        (some web_class)
        (web_class ∷ api_class ∷ [])
find_best_match-for_pod_example =
    find_best_match-for_pod selector_lib client pod (some web_class) (web_class ∷ api_class ∷ [])
      client-IsFaithful enforced refl
