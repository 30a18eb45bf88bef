-- ===== src/Examples/Samples.antt =====
-- The sample objects, and libraries that behave as documented.
use workload_class.Prelude.{
  Result, ℕ, ◌≡◌, refl, arith, Bool, true, false, Option, none, some, List, [], ◌∷◌, all, All, ap,
  ◌^◌, ◌*◌, ◌+◌, ◌==◌, if◌then◌else◌, Str, str_eq, lit, lookup, ok, err,
}
use workload_class.Prelude.Int.{pos}
use workload_class.Kube.Labels.{LabelSelector, Requirement, op_in, is_known, satisfies, SelectorLib}
use workload_class.Kube.Objects.{
  str_val, Pod, running, Pdb, Namespace, NodeOperator, node_in, node_does_not_exist,
}
use workload_class.Kube.Client.{Client, not_found}
use workload_class.Api.{
  WorkloadClass, Guardrail, DisruptionPolicy, Subject, ready, SpotPlacementPolicy,
  enforced_class_label, none_reversion, GuardrailParameters, required,
}
use workload_class.Pdb.{TimeFormat}
use workload_class.Temporal.{Location, TimeLib}
use workload_class.Placement.Nodes.{NodeLib, present_in, absent}

pub all-known :
    (rs : List Requirement)
    → all (λ r. is_known r.operator) rs ≡ true
    → All (λ r. is_known r.operator ≡ true) rs
all-known [] h = tt
all-known (r ∷ rs) h = (ground arith, all-known rs (ground arith))

abbrev pub selector_lib : SelectorLib
selector_lib = record {
  valid = λ s. all (λ r. is_known r.operator) s.match_expressions;
  matches = satisfies;
  matches_lem = λ s l h. refl;
  valid-known = λ s h. all-known s.match_expressions h;
}

abbrev pub parse_one : Str → Option ℕ
parse_one [] = none
parse_one (t ∷ ts) = some t

-- A time as one symbol.
abbrev pub time_format : TimeFormat
time_format = record {
  format = λ t. t ∷ [];
  parse = parse_one;
  last = 10 ^ 20;
  parse-format = λ t h. refl;
}

abbrev pub hash : Str → Str
hash s = lit "0badcafe"

abbrev matches_node : NodeOperator → List Str → Option Str → Bool
matches_node node_in values label = present_in values label
matches_node node_does_not_exist values label = absent label
matches_node _ values label = false

abbrev pub node_lib : NodeLib
node_lib = record {
  matches = λ node r. matches_node r.operator r.values (lookup r.key node);
  field_matches = λ node r. false;
  matches-in = λ node r h. ap (λ o. matches_node o r.values (lookup r.key node)) h;
  matches-does_not_exist = λ node r h. ap (λ o. matches_node o r.values (lookup r.key node)) h;
}

-- Under the key "app" the value "web", or a value from a list.
abbrev pub app_web : LabelSelector
app_web = record { match_labels = (lit "app", lit "web") ∷ []; match_expressions = [] }

abbrev pub app_in : LabelSelector
app_in = record {
  match_labels = [];
  match_expressions =
      record { key = lit "app"; operator = op_in; values = lit "api" ∷ lit "web" ∷ [] } ∷ [];
}

abbrev pub a_user : Subject
a_user = record { kind = lit "User"; name = lit "ann"; namespace = [] }

abbrev pub a_group : Subject
a_group = record { kind = lit "Group"; name = lit "ops"; namespace = [] }

abbrev pub pod : Pod
pod = record {
  name = lit "web-0";
  generate_name = [];
  namespace = lit "shop";
  uid = lit "u1";
  labels = (lit "app", lit "web") ∷ [];
  creation_timestamp = 100;
  deletion_timestamp = none;
  deletion_grace_period_seconds = none;
  termination_grace_period_seconds = some (pos 40);
  phase = running;
  node_name = lit "n1";
  node_selector = [];
  tolerations = [];
  node_affinity = none;
  controller = none;
  start_time = none;
  conditions = [];
}

abbrev pub policy : DisruptionPolicy
policy = record {
  allowed_disruption_windows =
      record {
        name = lit "weekend";
        days_of_week = lit "Saturday" ∷ lit "Sunday" ∷ [];
        time_zone = [];
        start_time = lit "01:00";
        end_time = lit "05:00";
      }
      ∷ [];
  allowed_disruptions_outside_of_window = a_user ∷ [];
  max_non_disruption_duration_days = pos 20;
  min_initial_run_duration_days = pos 0;
  grace_termination_duration_seconds = pos 0;
  emergency_override = false;
}

abbrev pub web_class : WorkloadClass
web_class = record {
  name = lit "web";
  namespace = lit "shop";
  uid = lit "w1";
  generation = pos 1;
  creation_timestamp = 50;
  deletion_timestamp = none;
  pod_selector = some app_web;
  disruption_policy = policy;
  capacity_strategy = none;
  infrastructure_profile_ref = none;
  maintenance_readiness = ready;
  last_disruption_time = none;
  conditions = [];
}

abbrev pub api_class : WorkloadClass
api_class = record web_class {
  name = lit "api";
  creation_timestamp = 40;
  pod_selector = some app_in;
}

abbrev pub guardrail : Guardrail
guardrail = record {
  name = lit "weekends";
  generation = pos 1;
  conditions = [];
  disruption = record {
    days_of_week = lit "Saturday" ∷ lit "Sunday" ∷ lit "Friday" ∷ [];
    max_allowed_windows = pos 2;
    max_non_disruption_duration_days = pos 30;
  };
  placement = none;
}

abbrev pub spot_policy : SpotPlacementPolicy
spot_policy = record {
  name = lit "mixed";
  generation = pos 1;
  conditions = [];
  custom_compute_class = lit "fast";
  fallback_allowed_machine_families = lit "n2" ∷ [];
  reversion_action = none_reversion;
  min_duration_on_fallback = none;
}

abbrev pub pdb : Pdb
pdb = record {
  name = [];
  namespace = [];
  labels = [];
  annotations = [];
  controller = some (record { kind = lit "WorkloadClass"; name = lit "web"; uid = lit "w1" });
  selector = none;
  unhealthy_policy = none;
  max_unavailable = none;
}

abbrev pub shop : Namespace
shop = record { name = lit "shop"; labels = (enforced_class_label, lit "web") ∷ [] }

-- A client that reads the one namespace and its class.
abbrev pub client : Client
client = record {
  get_namespace = λ ns. ok shop;
  get_workload_class = λ ns name. ok (record web_class { namespace = ns });
  get_pod = λ ns name. err not_found;
  get_pdb = λ ns name. err not_found;
  get_node = λ name. err not_found;
  get_spot_policy = λ name. err not_found;
  list_workload_classes = λ ns. ok (web_class ∷ api_class ∷ []);
  list_pods = λ ns. ok (pod ∷ []);
  list_guardrails = ok (guardrail ∷ []);
}

-- Parameters that allow a quarter of the Pods on fallback, and a decoder that reads any text so.
abbrev pub quarter : GuardrailParameters
quarter = record {
  enforcement_mode = required;
  min_spot_ratio = some (lit "25%");
  fallback = some (record {
    allow_fallback_to_on_demand = some true;
    max_fallback_ratio = some (str_val (lit "25%"));
  });
  reversion = none;
}

abbrev pub decode : Str → Result Str GuardrailParameters
decode raw = ok quarter

-- A zone in which it is Saturday, with two times of day.
abbrev saturday : Location
saturday = record {
  weekday = λ t. lit "Saturday";
  weekday_before = λ t. lit "Friday";
  at = λ t c. c.0 * (3600 * 10 ^ 9) + c.1 * (60 * 10 ^ 9);
}

abbrev clock : Str → Option (ℕ × ℕ)
clock s = if s == lit "01:00" then some (1, 0) else if s == lit "05:00" then some (5, 0) else none

abbrev pub times : TimeLib
times = record { load_location = λ s. some saturday; parse_clock = clock }
