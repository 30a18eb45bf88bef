-- ===== src/Placement/Nodes.antt =====
-- On which nodes a Pod may be scheduled, by the documentation of Kubernetes.
use workload_class.Prelude.{
  ◌≡◌, Bool, true, false, ◌&&◌, Option, none, some, List, [], ◌∷◌, any, all, contains, str_eq, Str,
  lookup,
}
use workload_class.Kube.Labels.{Labels}
use workload_class.Kube.Objects.{Pod, NodeRequirement, node_in, node_does_not_exist, NodeTerm}
use workload_class.Placement.{or_new_affinity}
use workload_class.SpotPod.{holds}

abbrev pub present_in : List Str → Option Str → Bool
present_in values none = false
present_in values (some v) = contains values v

abbrev pub absent : Option Str → Bool
absent none = true
absent (some v) = false

-- The scheduler's matching of one requirement against the labels of a node, and against its fields.
pub record NodeLib : Type 0 where
  pub matches : Labels → NodeRequirement → Bool
  pub field_matches : Labels → NodeRequirement → Bool
  pub matches-in :
      (node : Labels) (r : NodeRequirement)
      → r.operator ≡ node_in
      → matches node r ≡ present_in r.values (lookup r.key node)
  pub matches-does_not_exist :
      (node : Labels) (r : NodeRequirement)
      → r.operator ≡ node_does_not_exist
      → matches node r ≡ absent (lookup r.key node)

-- A term that requires nothing matches no node.
abbrev pub requires_some : List NodeRequirement → List NodeRequirement → Bool
requires_some [] [] = false
requires_some [] (f ∷ fs) = true
requires_some (e ∷ es) fs = true

module _ (lib : NodeLib) (node : Labels) where
  unfoldable pub term_matches : NodeTerm → Bool
  term_matches t =
      requires_some t.match_expressions t.match_fields
      && (all (lib.matches node) t.match_expressions && all (lib.field_matches node) t.match_fields)

  abbrev pub required_allows : Option (List NodeTerm) → Bool
  required_allows none = true
  required_allows (some terms) = any term_matches terms

  -- The required node affinity of the Pod allows the node.
  unfoldable pub affinity_allows : Pod → Bool
  affinity_allows pod = required_allows (or_new_affinity pod.node_affinity).required

  unfoldable pub selector_allows : Labels → Bool
  selector_allows selector = all (λ p. holds (lookup p.0 node) p.1) selector

  -- The Pod may be scheduled on the node, as far as selector and affinity say.
  unfoldable pub schedulable : Pod → Bool
  schedulable pod = selector_allows pod.node_selector && affinity_allows pod
