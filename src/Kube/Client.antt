-- ===== src/Kube/Client.antt =====
-- The API server as the program sees it through its client: what each read returns. Reads are not
-- code of the repository, so a client is a parameter; it holds still while one handler runs.
use workload_class.Prelude.{List, Str, Result, ok, ◌≡◌}
use workload_class.Kube.Objects.{Namespace, Pod, Node, Pdb}
use workload_class.Api.{WorkloadClass, Guardrail, SpotPlacementPolicy}

-- apierrors.IsNotFound, or any other failure with its text.
pub data GetError : Type 0 where
  not_found : GetError
  get_failed : Str → GetError

pub record Client : Type 0 where
  pub get_namespace : Str → Result GetError Namespace
  -- The namespace, then the name.
  pub get_workload_class : Str → Str → Result GetError WorkloadClass
  pub get_pod : Str → Str → Result GetError Pod
  pub get_pdb : Str → Str → Result GetError Pdb
  pub get_node : Str → Result GetError Node
  pub get_spot_policy : Str → Result GetError SpotPlacementPolicy
  -- The objects of a namespace.
  pub list_workload_classes : Str → Result Str (List WorkloadClass)
  pub list_pods : Str → Result Str (List Pod)
  pub list_guardrails : Result Str (List Guardrail)

-- A read by key returns an object of that key.
pub record IsFaithful (c : Client) : Type 0 where
  pub get_namespaced :
      (ns name : Str) {wc : WorkloadClass}
      → c.get_workload_class ns name ≡ ok wc
      → wc.namespace ≡ ns
