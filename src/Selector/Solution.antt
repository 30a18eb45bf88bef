-- ===== src/Selector/Solution.antt =====
-- SelectorsOverlap, from constraints to labels: if every collected constraint is satisfiable, some
-- labels meet all the requirements.
use workload_class.Prelude.{
  ◌≡◌, refl, subst, inl, inr, arith, Bool, true, false, ◌&&◌, Option, none, some, List, [], ◌∷◌,
  contains, Str, str_eq, lookup, lookup-insert, if◌then◌else◌, Bool-cases, ◌==◌, ==_iff, ==_refl,
  All, all,
}
use workload_class.Kube.Labels.{Labels, Operator, Requirement, op_in, requirement_holds, is_known}
use workload_class.Selector.{
  or_new, Constraints, constraint_for, add, add_at, add_labels, add_expressions, satisfiable,
  all_satisfiable,
}
use workload_class.Selector.Constraint.{admits, admits-add, pick, admits-pick}
use workload_class.Selector.Sound.{
  constraint_for_of_All, admits-new, label_holds, expression_holds, AllKnown,
}

-- From constraints to labels: the labels meet what is required of every key.
abbrev pub Meets : Constraints → Labels → Type 0
Meets m l = (k : Str) → admits (constraint_for m k) (lookup k l) ≡ true

constraint_for-add_at :
    (m : Constraints) (j k : Str) (op : Operator) (vs : List Str)
    → constraint_for (add_at m k op vs) j
      ≡ (if k == j then add (constraint_for m j) op vs else constraint_for m j)
unfolding constraint_for add_at
constraint_for-add_at m j k op vs = elim (Bool-cases (k == j)) [
  | inl e ↦
      subst
        (λ i.
          constraint_for (add_at m k op vs) i
          ≡ (if k == i then add (constraint_for m i) op vs else constraint_for m i))
        ((==_iff k j).0 e)
        (rw (lookup-insert k k (add (constraint_for m k) op vs) m, ==_refl k) refl)
  | inr n ↦ rw (lookup-insert j k (add (constraint_for m k) op vs) m, n) refl
]

and-true_right : (b : Bool) → b ≡ (b && true)
and-true_right true = refl
and-true_right false = refl

admits-add_at :
    (m : Constraints) (j k : Str) (op : Operator) (vs : List Str) (o : Option Str)
    → is_known op ≡ true
    → admits (constraint_for (add_at m k op vs) j) o
      ≡ (admits (constraint_for m j) o && (if k == j then requirement_holds op vs o else true))
admits-add_at m j k op vs o known = elim (Bool-cases (k == j)) [
  | inl e ↦
      rw (constraint_for-add_at m j k op vs, e) (admits-add (constraint_for m j) op vs o known)
  | inr n ↦ rw (constraint_for-add_at m j k op vs, n) (and-true_right _)
]

Meets-add_at :
    (m : Constraints) (l : Labels) (k : Str) (op : Operator) (vs : List Str)
    → is_known op ≡ true
    → Meets (add_at m k op vs) l
    → Meets m l × (requirement_holds op vs (lookup k l) ≡ true)
Meets-add_at m l k op vs known h = (
  λ j. ground (arith, h j, admits-add_at m j k op vs (lookup j l) known),
  ground (arith, h k, admits-add_at m k k op vs (lookup k l) known, ==_refl k),
)

pub Meets-add_labels :
    (m : Constraints) (ls : Labels) (l : Labels)
    → Meets (add_labels m ls) l
    → Meets m l × (all (label_holds l) ls ≡ true)
unfolding add_labels
Meets-add_labels m [] l h = (h, refl)
Meets-add_labels m ((k, v) ∷ ls) l h =
    let (rest, holds) = Meets-add_labels (add_at m k op_in (v ∷ [])) ls l h in
    let (before, this) = Meets-add_at m l k op_in (v ∷ []) refl rest in
    (before, ground (arith, this, holds))

pub Meets-add_expressions :
    (m : Constraints) (rs : List Requirement) (l : Labels)
    → AllKnown rs
    → Meets (add_expressions m rs) l
    → Meets m l × (all (expression_holds l) rs ≡ true)
unfolding add_expressions
Meets-add_expressions m [] l known h = (h, refl)
Meets-add_expressions m (r ∷ rs) l known h =
    let (rest, holds) = Meets-add_expressions (add_at m r.key r.operator r.values) rs l known.1 h in
    let (before, this) = Meets-add_at m l r.key r.operator r.values known.0 rest in
    (before, ground (arith, this, holds))

-- Labels that hold, under each key of the map, the value that its constraint picks.
labels_from : (Str → Option Str) → List Str → Labels
labels_from g [] = []
labels_from g (k ∷ ks) = elim (g k) [ none ↦ labels_from g ks | some v ↦ (k, v) ∷ labels_from g ks ]

lookup-labels_from :
    (g : Str → Option Str) (ks : List Str) (j : Str)
    → lookup j (labels_from g ks) ≡ (if contains ks j then g j else none)
unfolding labels_from lookup contains
lookup-labels_from g [] j = refl
lookup-labels_from g (k ∷ ks) j = elim (Bool-cases (k == j)) [
  | inl e ↦
      subst (λ i. lookup i (labels_from g (k ∷ ks)) ≡ (if contains (k ∷ ks) i then g i else none))
        ((==_iff k j).0 e) (ground (arith, lookup-labels_from g ks k, ==_refl k))
  | inr n ↦ ground (arith, lookup-labels_from g ks j, ==_iff j k, ==_iff k j)
]

abbrev keys : Constraints → List Str
keys [] = []
keys ((k, c) ∷ m) = k ∷ keys m

lookup-absent :
    (m : Constraints) (k : Str) → contains (keys m) k ≡ false → constraint_for m k ≡ or_new none
unfolding constraint_for lookup contains
lookup-absent [] k h = refl
lookup-absent ((j, c) ∷ m) k h = ground (arith, lookup-absent m k, ==_iff j k, ==_iff k j)

satisfiable-All : (m : Constraints) → all_satisfiable m ≡ true → All (λ p. satisfiable p.1 ≡ true) m
unfolding all_satisfiable
satisfiable-All [] h = tt
satisfiable-All ((k, c) ∷ m) h = (ground arith, satisfiable-All m (ground arith))

pub solution : Constraints → Labels
solution m = labels_from (λ k. pick (constraint_for m k)) (keys m)

pub solution-Meets : (m : Constraints) → all_satisfiable m ≡ true → Meets m (solution m)
unfolding solution
solution-Meets m h k = elim (Bool-cases (contains (keys m) k)) [
  | inl e ↦
      rw (lookup-labels_from (λ j. pick (constraint_for m j)) (keys m) k, e)
        (admits-pick (constraint_for m k) (
          constraint_for_of_All (λ _ c. satisfiable c ≡ true) m k new-satisfiable
            (satisfiable-All m h)))
  | inr n ↦
      rw (lookup-labels_from (λ j. pick (constraint_for m j)) (keys m) k, n, lookup-absent m k n)
        (admits-new none)
]
  where
    new-satisfiable : satisfiable (or_new none) ≡ true
    new-satisfiable = unfold satisfiable in refl
