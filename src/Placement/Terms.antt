-- ===== src/Placement/Terms.antt =====
-- requireNodeSelectorTerms narrows the nodes of a Pod by the new terms, and by nothing else.
use workload_class.Prelude.{
  ◌≡◌, refl, ap, arith, Bool, true, false, ◌&&◌, Option, none, some, List, [], ◌∷◌, ◌++◌, map, any,
  All, all-append, any-append,
}
use workload_class.Kube.Labels.{Labels}
use workload_class.Kube.Objects.{Pod, NodeRequirement, NodeTerm}
use workload_class.Placement.{
  or_new_affinity, merge, cross, combine_terms, require_node_selector_terms,
}
use workload_class.Placement.Nodes.{
  NodeLib, requires_some, term_matches, required_allows, affinity_allows,
}

abbrev pub Requires : NodeTerm → Type 0
Requires t = requires_some t.match_expressions t.match_fields ≡ true

-- The API allows no empty list of terms; and here no term is empty.
abbrev pub IsProper : Option (List NodeTerm) → Type 0
IsProper none = Unit
IsProper (some []) = ⊥
IsProper (some (t ∷ ts)) = All Requires (t ∷ ts)

requires_some-append :
    (a b c d : List NodeRequirement)
    → requires_some a b ≡ true
    → requires_some (a ++ c) (b ++ d) ≡ true
requires_some-append [] [] c d h = cc
requires_some-append [] (f ∷ b) [] d h = refl
requires_some-append [] (f ∷ b) (e ∷ c) d h = refl
requires_some-append (e ∷ a) b c d h = refl

abbrev pub empty_term : NodeTerm
empty_term = record { match_expressions = []; match_fields = [] }

cross-empty : (terms : List NodeTerm) → cross (empty_term ∷ []) terms ≡ terms
unfolding cross
cross-empty [] = refl
cross-empty (t ∷ ts) = ap (λ l. t ∷ l) (cross-empty ts)

module _ (lib : NodeLib) (node : Labels) where
  abbrev tm : NodeTerm → Bool
  tm = term_matches lib node

  term_matches-merge : (e t : NodeTerm) → Requires e → Requires t → tm (merge e t) ≡ (tm e && tm t)
  unfolding term_matches
  term_matches-merge e t he ht = ground (
    arith,
    he,
    ht,
    requires_some-append e.match_expressions e.match_fields t.match_expressions t.match_fields he,
    all-append (lib.matches node) e.match_expressions t.match_expressions,
    all-append (lib.field_matches node) e.match_fields t.match_fields,
  )

  any-map-merge :
      (e : NodeTerm) (terms : List NodeTerm)
      → Requires e
      → All Requires terms
      → any tm (map (merge e) terms) ≡ (tm e && any tm terms)
  any-map-merge e [] he ht = ground arith
  any-map-merge e (t ∷ ts) he ht =
      ground (arith, term_matches-merge e t he ht.0, any-map-merge e ts he ht.1)

  any-cross :
      (es terms : List NodeTerm)
      → All Requires es
      → All Requires terms
      → any tm (cross es terms) ≡ (any tm es && any tm terms)
  unfolding cross
  any-cross [] terms he ht = refl
  any-cross (e ∷ es) terms he ht = ground (
    arith,
    any-append tm (map (merge e) terms) (cross es terms),
    any-map-merge e terms he.0 ht,
    any-cross es terms he.1 ht,
  )

  combine-allows :
      (o : Option (List NodeTerm)) (terms : List NodeTerm)
      → IsProper o
      → All Requires terms
      → required_allows lib node (some (combine_terms o terms))
        ≡ (required_allows lib node o && any tm terms)
  combine-allows none terms h ht = refl
  combine-allows (some []) terms h ht = absurd h
  combine-allows (some (e ∷ es)) terms h ht = any-cross (e ∷ es) terms h ht

  -- If no term is empty, the affinity of the changed Pod allows exactly the nodes that the Pod's own
  -- affinity allows and that match one of the new terms.
  pub require_node_selector_terms-allows :
      (pod : Pod) (terms : List NodeTerm)
      → IsProper (or_new_affinity pod.node_affinity).required
      → All Requires terms
      → affinity_allows lib node (require_node_selector_terms pod terms)
        ≡ (affinity_allows lib node pod && any tm terms)
  unfolding affinity_allows require_node_selector_terms
  require_node_selector_terms-allows pod terms h ht =
      combine-allows (or_new_affinity pod.node_affinity).required terms h ht

  -- A Pod whose only term is empty is allowed on no node, but once new terms are required as well, its
  -- affinity allows all the nodes that one of these matches: the change loosens it.
  pub require-empty_term :
      (pod : Pod) (terms : List NodeTerm)
      → (or_new_affinity pod.node_affinity).required ≡ some (empty_term ∷ [])
      → (affinity_allows lib node pod ≡ false)
        × (affinity_allows lib node (require_node_selector_terms pod terms) ≡ any tm terms)
  unfolding affinity_allows require_node_selector_terms cross term_matches
  require-empty_term pod terms h = (ground (arith, h), rw h (ap (any tm) (cross-empty terms)))
