-- ===== src/Lib.antt =====
-- Models and theorems of workload-class, a Kubernetes controller with admission webhooks that decides when
-- and by whom the Pods of a WorkloadClass may be evicted and on which nodes they run.
--
-- The parts of the program and the files that model them:
--   Api            api/v1: the types of WorkloadClass, WorkloadClassGuardrail and GKESpotPlacementPolicy.
--   Selector       internal/utils/selector.go: SelectorsOverlap collects a constraint for each label key
--                  (add, constraint_for) and asks whether each is satisfiable.
--   BestMatch      internal/utils/workloadclass.go: selectBestMatchFromList and updateBestMatch, which run
--                  over the WorkloadClasses of a namespace with the state Selection.
--   Resolve        the same file: the enforced class of a Namespace, FindBestMatchWorkloadClass, which the
--                  webhooks call for each Pod, and BestMatchWorkloadClassForPod, which the controller calls.
--   LeaseTracker   internal/utils/lease_tracker.go: the requests for leases that the disruption webhook
--                  enqueues and the controller drains; Tracker is the map with the channel.
--   PdbName, Pdb   internal/utils/pdb.go: the PodDisruptionBudget of each Pod, its name, what the
--                  controller writes into it, and the leases on it.
--   Guardrail      internal/utils/guardrail.go, subset.go, WeekdaysValid of temporal.go and
--                  validateAgainstGuardrails of internal/controller/workloadclass_controller.go.
--   SpotRatio      internal/utils/spotratio.go, gkespot.go and the percentages of
--                  gkespotguardrail_validation.go.
--   SpotPod        internal/utils/spotpod.go.
--   Placement      internal/webhook/v1/pod_placement.go: the changes of a Pod that is placed on Spot or
--                  On-Demand nodes.
--   PodWebhook     internal/webhook/v1/pod_webhook.go and fallback_budget.go, with the counting of Pods in
--                  pod_placement.go: Default finds the WorkloadClass by Resolve, counts its Pods (Counts), asks
--                  for the budgets of the guardrails (Budgets) and applies a change of Placement (Handler).
--   Temporal       internal/utils/temporal.go: IsTimeInWindows and the evaluation of one window.
--   Disruption     internal/webhook/disruption_webhook.go: the answer to an eviction. Handle finds the
--                  WorkloadClass by Resolve, asks Temporal for the windows and Pdb for the lease, and
--                  enqueues a request with LeaseTracker, whose state it returns with the answer.
--   Controller     internal/controller/workloadclass_controller.go and the messages of
--                  internal/utils/format.go. Reconcile (Status) validates the WorkloadClass (Validation,
--                  Capacity, Messages, and Guardrail), computes the readiness (Readiness, with Temporal),
--                  drains the requests of LeaseTracker and reconciles the budgets: reconcilePDBs (Reconcile),
--                  its calls over a namespace (Namespace), and the budget of one Pod (Pdbs, with Pdb). Store
--                  holds the Pods, the budgets and the tracker, and Faults says which calls fail.
--   Spot           internal/controller/spot_capacity.go, spot_fallback.go and spot_reversion.go: whether Spot
--                  nodes can be had (Capacity), the InFallback condition (Fallback), and the eviction of Pods
--                  that have fallen back (Reversion). gkespotplacement_controller.go is the reconciler around
--                  them (Reconcile), and gkespotplacementpolicy_controller.go the one that validates a policy
--                  (Policy) and attaches it to the WorkloadClasses that reference it (Attach), which Reconcile
--                  and the Pod placement webhook wait for.
--   Admission      internal/webhook/v1/workloadclassguardrail_webhook.go,
--                  internal/controller/workloadclassguardrail_controller.go and ValidatePluginConstraints, which
--                  both call: the admission and the status of a guardrail.
--   Parameters     the validation in internal/utils/gkespotguardrail_validation.go and fallbackWithinBudget
--                  of internal/webhook/v1/fallback_budget.go, which reads a validated parameter.
--   Prelude        texts, lists, maps, results and integers that all parts share.
--   Kube           the types of Kubernetes and its client, which are parameters.
--   Examples       concrete inputs.
--
-- A Go string is the list of its bytes. A map is an association list, of which insert and delete keep each
-- key once; where Go leaves an iteration order open, the models either do not depend on it or take one
-- order. A nil pointer is none, an int32 or int64 is an integer, a time is a number of nanoseconds, and the
-- current time is an argument. An error is a value that keeps what its text names. A panic is none or an
-- error of its own. The int64 products of LeaseDurationForPod and of the minimal initial run wrap as in
-- Go. One moment stands for all reads of the clock that one request makes.
--
-- Parameters: label selectors (SelectorLib), the API server's reads (Client, Cluster), the scheduler's
-- matching (NodeLib), time zones and clock times (TimeLib, Location), the format of timestamps (TimeFormat),
-- whose round trip ends with the year 9999, the hash of PDBName, the JSON decoding of a guardrail's parameters
-- (`decode`), white space and objects of JSON (JsonLib), YAML and Unicode cases (StatusLib), the text of a
-- violation, and what the Eviction API answers. Each is an argument or a record of operations, with
-- documented behaviour as laws where a theorem needs it, and Examples has an instance of each.
--
-- All loops are structural recursions over lists, so no fuel is needed.
--
-- In one reconcile a call on an object fails always or never, and nobody else writes, so that the
-- preconditions of a Delete hold and no Update conflicts.
--
-- Not modelled: the setup of watches, event filters and the functions that map events to requests;
-- logging and events, JSON decoding, the helpers of the tests, and the start of the manager.
pub mod Prelude
pub mod Kube
pub mod Api
pub mod Selector
pub mod BestMatch
pub mod Resolve
pub mod LeaseTracker
pub mod PdbName
pub mod Pdb
pub mod Guardrail
pub mod SpotRatio
pub mod SpotPod
pub mod Placement
pub mod PodWebhook
pub mod Controller
pub mod Spot
pub mod Admission
pub mod Temporal
pub mod Disruption
pub mod Parameters
mod Examples
