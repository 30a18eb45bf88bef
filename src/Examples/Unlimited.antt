-- ===== src/Examples/Unlimited.antt =====
-- The web class without a limit on the time without disruption.
use workload_class.Prelude.{
  ◌≡◌, refl, true, false, none, some, [], ◌∷◌, Str, str_beq, str_eq, lit, lookup, ok,
}
use workload_class.Prelude.Int.{pos}
use workload_class.Kube.Objects.{NamespacedName}
use workload_class.Kube.Client.{Client}
use workload_class.Api.{WorkloadClass, overdue}
use workload_class.Api.ConditionType.{validated}
use workload_class.Resolve.{
  find_best_match_workload_class, namespace_enforced_workload_class, named_enforced,
}
use workload_class.Pdb.{sync_pdb, is_pdb_open}
use workload_class.Disruption.Identity.{matches_identity, matches_user_kind, matching_subjects}
use workload_class.Disruption.Handler.{Request, handle}
use workload_class.Disruption.Evictions.{is_denied, Governed, subjects}
use workload_class.Controller.Readiness.{calculate_readiness, is_overdue}
use workload_class.Controller.Validation.{
  ClassViolation, validated_condition, reconcile_conditions, placement_plugin_condition,
  overlapping_workload_classes,
}
use workload_class.Controller.Store.{Store, Faults}
use workload_class.Controller.Status.{
  apply_plugin_condition, set_status_condition, readiness_beq, finish, validate_and_finish,
  reconcile,
}
use workload_class.Controller.Unlimited.{unset_limit-allowed}
use workload_class.Examples.Samples.{
  selector_lib, times, time_format, hash, pod, pdb, guardrail, web_class, client, decode,
}

-- The class with no limit on the time without disruption.
abbrev unlimited : WorkloadClass
unlimited = record web_class {
  disruption_policy = record (web_class.disruption_policy) {
    max_non_disruption_duration_days = pos 0;
  };
}

abbrev text : ClassViolation → Str
text v = lit "not allowed"

abbrev empty : Store
empty = record { pdbs = []; tracker = none; pods = [] }

abbrev no_faults : Faults
no_faults = record {
  list_pdbs = none;
  list_pods = none;
  get_pdb = λ name. none;
  get_pod = λ name. none;
  write_pdb = λ name. none;
  delete_pdb = λ name. none;
  patch_pod = λ name. none;
}

abbrev controller_client : Client
controller_client = record client { get_workload_class = λ ns name. ok unlimited }

abbrev key : NamespacedName
key = record { namespace = lit "shop"; name = lit "web" }

abbrev served : WorkloadClass
served =
    let plugin = placement_plugin_condition unlimited in
    let condition =
      reconcile_conditions
        (validated_condition text selector_lib times decode unlimited (guardrail ∷ []) []) plugin in
    record unlimited {
      maintenance_readiness = overdue;
      conditions =
          (set_status_condition validated condition
            (apply_plugin_condition plugin unlimited.conditions).0).0;
    }

wrote :
    (reconcile selector_lib times hash time_format decode text controller_client no_faults none 9
      key empty).written
    ≡ some served
unfolding reconcile validate_and_finish finish calculate_readiness is_overdue
    overlapping_workload_classes namespace_enforced_workload_class named_enforced readiness_beq
    lookup lit str_beq
wrote = refl

abbrev webhook_client : Client
webhook_client = record client {
  get_workload_class = λ ns name. ok served;
  get_pod = λ ns name. ok pod;
}

abbrev eviction : Request
eviction = record {
  sub_resource = lit "eviction";
  name = lit "web-0";
  namespace = lit "shop";
  user_info = record { username = lit "bob"; groups = lit "ops" ∷ [] };
}

governed : Governed selector_lib webhook_client eviction pod served
unfolding find_best_match_workload_class namespace_enforced_workload_class named_enforced lookup lit
    str_beq
governed = record {
  eviction = refl;
  reads = refl;
  found = record { best = some served; ambiguous = [] };
  resolves = refl;
  best = refl;
}

no_subject : subjects eviction served ≡ []
unfolding matching_subjects matches_identity matches_user_kind lit str_beq
no_subject = refl

unset_limit-allowed_example :
    (is_denied (handle selector_lib times time_format hash webhook_client 30 none eviction).1
      ≡ false)
    × (is_pdb_open (some (sync_pdb hash served pod pdb true)) ≡ true)
unset_limit-allowed_example =
    unset_limit-allowed selector_lib times hash time_format decode text controller_client no_faults
      none 9 key empty unlimited served webhook_client 30 none eviction pod pdb true refl refl wrote
      governed no_subject
