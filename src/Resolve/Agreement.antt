-- ===== src/Resolve/Agreement.antt =====
-- The two ways to find the WorkloadClass of a Pod agree, and the enforced class is an active one.
use workload_class.Prelude.{
  ◌≡◌, refl, ◌≢◌, arith, Option, none, some, List, [], ◌∷◌, Str, str_eq, ==_iff, Result, ok, err,
}
use workload_class.Kube.Labels.{SelectorLib}
use workload_class.Kube.Objects.{Pod, Namespace}
use workload_class.Kube.Client.{Client, GetError, not_found, get_failed, IsFaithful}
use workload_class.Api.{WorkloadClass}
use workload_class.BestMatch.{Selection, select_best_match_from_list}
use workload_class.Resolve.{
  ResolveError, Match, enforced_name, active_only, as_match, best_of, named_enforced,
  namespace_enforced_workload_class, find_best_match_workload_class,
  best_match_workload_class_for_pod,
}

-- The class is the active one of the name that the Namespace's label gives.
pub record IsEnforced (client : Client) (ns : Str) (wc : WorkloadClass) : Type 0 where
  pub namespace : Namespace
  pub name : Str
  pub reads : client.get_namespace ns ≡ ok namespace
  pub labelled : enforced_name namespace ≡ some name
  pub non_empty : name ≢ []
  pub found : client.get_workload_class ns name ≡ ok wc
  pub active : wc.deletion_timestamp ≡ none

module _ (client : Client) (ns : Str) where
  active_only-some :
      (r : Result GetError WorkloadClass) (wc : WorkloadClass)
      → active_only r ≡ ok (some wc)
      → (r ≡ ok wc) × (wc.deletion_timestamp ≡ none)
  active_only-some (ok x) wc h = ground arith
  active_only-some (err not_found) wc h = cc
  active_only-some (err (get_failed e)) wc h = cc

  named_enforced-IsEnforced :
      (o : Namespace) (n : Option Str) (wc : WorkloadClass)
      → client.get_namespace ns ≡ ok o
      → enforced_name o ≡ n
      → named_enforced client ns n ≡ ok (some wc)
      → IsEnforced client ns wc
  unfolding named_enforced
  named_enforced-IsEnforced o none wc r l h = cc
  named_enforced-IsEnforced o (some []) wc r l h = cc
  named_enforced-IsEnforced o (some (c ∷ cs)) wc r l h =
      let found = active_only-some (client.get_workload_class ns (c ∷ cs)) wc h in
      record {
        namespace = o;
        name = c ∷ cs;
        reads = r;
        labelled = l;
        non_empty = λ e. cc;
        found = found.0;
        active = found.1;
      }

  by_namespace :
      (r : Result GetError Namespace) (wc : WorkloadClass)
      → client.get_namespace ns ≡ r
      → namespace_enforced_workload_class client ns ≡ ok (some wc)
      → IsEnforced client ns wc
  unfolding namespace_enforced_workload_class
  by_namespace (ok o) wc e h =
      named_enforced-IsEnforced o (enforced_name o) wc e refl
        (rw (e, namespace_enforced_workload_class) at h)
  by_namespace (err not_found) wc e h = ground arith
  by_namespace (err (get_failed t)) wc e h = ground arith

  -- A WorkloadClass that NamespaceEnforcedWorkloadClass returns is the one whose non-empty name the
  -- Namespace's enforced-class label holds, read from the same namespace, and is not being deleted.
  pub namespace_enforced_workload_class-IsEnforced :
      (wc : WorkloadClass)
      → namespace_enforced_workload_class client ns ≡ ok (some wc)
      → IsEnforced client ns wc
  namespace_enforced_workload_class-IsEnforced wc h =
      by_namespace (client.get_namespace ns) wc refl h

abbrev pub best_only : Result ResolveError Match → Result ResolveError (Option WorkloadClass)
best_only (ok m) = ok m.best
best_only (err e) = err e

best_only-as_match : (s : Option Selection) → best_only (as_match s) ≡ best_of s
best_only-as_match none = refl
best_only-as_match (some s) = refl

-- FindBestMatchWorkloadClass, which reads the API server for each Pod, returns what
-- BestMatchWorkloadClassForPod returns on the enforced class and the WorkloadClasses of the Pod's
-- namespace, if these were read without an error by a client that returns objects of the namespace
-- it was asked for.
pub find_best_match-for_pod :
    (lib : SelectorLib) (client : Client) (pod : Pod) (enforced : Option WorkloadClass)
    (wcs : List WorkloadClass)
    → IsFaithful client
    → namespace_enforced_workload_class client pod.namespace ≡ ok enforced
    → client.list_workload_classes pod.namespace ≡ ok wcs
    → best_only (find_best_match_workload_class lib client (some pod))
      ≡ best_match_workload_class_for_pod lib (some pod) enforced wcs
unfolding find_best_match_workload_class best_match_workload_class_for_pod
find_best_match-for_pod lib client pod none wcs faithful e l =
    rw (e, l) (best_only-as_match (select_best_match_from_list lib pod wcs))
find_best_match-for_pod lib client pod (some wc) wcs faithful e l =
    let h = namespace_enforced_workload_class-IsEnforced client pod.namespace wc e in
    let ns = faithful.get_namespaced pod.namespace h.name h.found in
    rw e (ground (arith, h.active, ns, ==_iff wc.namespace pod.namespace))
