-- ===== src/Selector/Sound.antt =====
-- SelectorsOverlap, from labels to constraints: labels that meet all requirements keep every
-- collected constraint satisfiable.
use workload_class.Prelude.{
  ◌≡◌, refl, subst, inl, inr, arith, Bool, true, Option, none, some, List, [], ◌∷◌, contains, Str,
  str_eq, lookup, insert, Bool-cases, ◌==◌, ==_iff, All, all,
}
use workload_class.Kube.Labels.{Labels, Operator, Requirement, op_in, requirement_holds, is_known}
use workload_class.Selector.{
  or_new, Constraints, KeyConstraint, constraint_for, add, add_at, add_labels, add_expressions,
  all_satisfiable,
}
use workload_class.Selector.Constraint.{
  admits, IsCoherent, add-IsCoherent, admits-add, satisfiable-admits,
}

-- What holds of a new constraint and of each entry holds of the constraint of any key.
pub constraint_for_of_All :
    (P : Str → KeyConstraint → Type 0) (m : Constraints) (k : Str)
    → P k (or_new none)
    → All (λ p. P p.0 p.1) m
    → P k (constraint_for m k)
unfolding constraint_for lookup
constraint_for_of_All P [] k new h = new
constraint_for_of_All P ((j, c) ∷ m) k new h = elim (Bool-cases (j == k)) [
  | inl e ↦ rw e (subst (λ i. P i c) ((==_iff j k).0 e) h.0)
  | inr n ↦ rw n (constraint_for_of_All P m k new h.1)
]

insert-All :
    (P : Str → KeyConstraint → Type 0) (m : Constraints) (k : Str) (c : KeyConstraint)
    → P k c
    → All (λ p. P p.0 p.1) m
    → All (λ p. P p.0 p.1) (insert k c m)
unfolding insert
insert-All P [] k c new h = (new, tt)
insert-All P ((j, d) ∷ m) k c new h = elim (Bool-cases (j == k)) [
  | inl e ↦ rw e (new, h.1)
  | inr n ↦ rw n (h.0, insert-All P m k c new h.1)
]

-- From labels to constraints: every entry admits what the labels hold under its key.
abbrev pub Agrees : Labels → Str → KeyConstraint → Type 0
Agrees l k c = IsCoherent c × (admits c (lookup k l) ≡ true)

abbrev pub Sound : Constraints → Labels → Type 0
Sound m l = All (λ p. Agrees l p.0 p.1) m

pub admits-new : (o : Option Str) → admits (or_new none) o ≡ true
unfolding contains
admits-new none = refl
admits-new (some v) = refl

add_at-Sound :
    (m : Constraints) (l : Labels) (k : Str) (op : Operator) (vs : List Str)
    → is_known op ≡ true
    → requirement_holds op vs (lookup k l) ≡ true
    → Sound m l
    → Sound (add_at m k op vs) l
unfolding add_at
add_at-Sound m l k op vs known holds h =
    let old : Agrees l k (constraint_for m k) =
      constraint_for_of_All (Agrees l) m k (inl refl, admits-new (lookup k l)) h in
    insert-All (Agrees l) m k (add (constraint_for m k) op vs)
      (
        add-IsCoherent (constraint_for m k) op vs old.0,
        ground (arith, admits-add (constraint_for m k) op vs (lookup k l) known, old.1),
      )
      h

abbrev pub label_holds : Labels → Str × Str → Bool
label_holds l p = requirement_holds op_in (p.1 ∷ []) (lookup p.0 l)

abbrev pub expression_holds : Labels → Requirement → Bool
expression_holds l r = requirement_holds r.operator r.values (lookup r.key l)

abbrev pub AllKnown : List Requirement → Type 0
AllKnown rs = All (λ r. is_known r.operator ≡ true) rs

pub add_labels-Sound :
    (m : Constraints) (ls : Labels) (l : Labels)
    → all (label_holds l) ls ≡ true
    → Sound m l
    → Sound (add_labels m ls) l
unfolding add_labels
add_labels-Sound m [] l holds h = h
add_labels-Sound m ((k, v) ∷ ls) l holds h =
    add_labels-Sound (add_at m k op_in (v ∷ [])) ls l (ground arith)
      (add_at-Sound m l k op_in (v ∷ []) refl (ground arith) h)

pub add_expressions-Sound :
    (m : Constraints) (rs : List Requirement) (l : Labels)
    → AllKnown rs
    → all (expression_holds l) rs ≡ true
    → Sound m l
    → Sound (add_expressions m rs) l
unfolding add_expressions
add_expressions-Sound m [] l known holds h = h
add_expressions-Sound m (r ∷ rs) l known holds h =
    add_expressions-Sound (add_at m r.key r.operator r.values) rs l known.1 (ground arith)
      (add_at-Sound m l r.key r.operator r.values known.0 (ground arith) h)

pub Sound-all_satisfiable : (m : Constraints) (l : Labels) → Sound m l → all_satisfiable m ≡ true
unfolding all_satisfiable
Sound-all_satisfiable [] l h = refl
Sound-all_satisfiable ((k, c) ∷ m) l h =
    ground (arith, satisfiable-admits c (lookup k l) h.0.0 h.0.1, Sound-all_satisfiable m l h.1)
