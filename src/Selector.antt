-- ===== src/Selector.antt =====
-- internal/utils/selector.go: whether two label selectors can match the same labels.
pub mod Constraint
pub mod Sound
pub mod Solution
pub mod Overlap
use workload_class.Prelude.{
  Bool, true, false, not, ◌&&◌, Option, none, some, List, [], ◌∷◌, ◌++◌, filter, contains, Str,
  str_eq, lookup, insert, if◌then◌else◌, Result, ok, err,
}
use workload_class.Kube.Labels.{
  Labels, Operator, op_in, op_not_in, op_exists, op_does_not_exist, op_other, Requirement,
  LabelSelector, SelectorLib,
}

-- A set is a list: the code asks only whether a value is in it and whether it is empty.
pub record KeyConstraint : Type 0 where
  pub in_set : Option (List Str)
  pub not_in : List Str
  pub exists : Bool
  pub not_exists : Bool

abbrev pub Constraints : Type 0
Constraints = List (Str × KeyConstraint)

abbrev pub or_new : Option KeyConstraint → KeyConstraint
or_new none = record { in_set = none; not_in = []; exists = false; not_exists = false }
or_new (some c) = c

-- The constraint of the key, or a new one that requires nothing.
unfoldable pub constraint_for : Constraints → Str → KeyConstraint
constraint_for m key = or_new (lookup key m)

abbrev pub intersect : Option (List Str) → List Str → List Str
intersect none values = values
intersect (some old) values = filter (contains values) old

unfoldable pub add : KeyConstraint → Operator → List Str → KeyConstraint
add c op_in values = record c { in_set = some (intersect c.in_set values); exists = true }
add c op_not_in values = record c { not_in = values ++ c.not_in }
add c op_exists values = record c { exists = true }
add c op_does_not_exist values = record c { not_exists = true }
add c (op_other o) values = c

abbrev pub non_empty {ℓ} : {A : Type ℓ} → List A → Bool
non_empty [] = false
non_empty (x ∷ xs) = true

abbrev pub in_allows : Option (List Str) → List Str → Bool
in_allows none not_in = true
in_allows (some xs) not_in = non_empty (filter (λ x. not (contains not_in x)) xs)

unfoldable pub satisfiable : KeyConstraint → Bool
satisfiable c = if c.not_exists then not c.exists else in_allows c.in_set c.not_in

-- `constraintFor(constraints, key).add(op, values)`: the map holds pointers, so the entry changes.
unfoldable pub add_at : Constraints → Str → Operator → List Str → Constraints
add_at m key op values = insert key (add (constraint_for m key) op values) m

unfoldable pub add_labels : Constraints → Labels → Constraints
add_labels m [] = m
add_labels m ((k, v) ∷ ls) = add_labels (add_at m k op_in (v ∷ [])) ls

unfoldable pub add_expressions : Constraints → List Requirement → Constraints
add_expressions m [] = m
add_expressions m (r ∷ rs) = add_expressions (add_at m r.key r.operator r.values) rs

unfoldable pub all_satisfiable : Constraints → Bool
all_satisfiable [] = true
all_satisfiable ((k, c) ∷ m) = if satisfiable c then all_satisfiable m else false

pub data SelectorError : Type 0 where
  invalid_label_selector : LabelSelector → SelectorError

module _ (lib : SelectorLib) where
  -- The first loop of SelectorsOverlap.
  unfoldable pub collect : Constraints → List LabelSelector → Result SelectorError Constraints
  collect m [] = ok m
  collect m (sel ∷ sels) =
      if lib.valid sel
      then collect (add_expressions (add_labels m sel.match_labels) sel.match_expressions) sels
      else err (invalid_label_selector sel)

  -- The second loop, on what the first one returns.
  abbrev pub decide_overlap : Result SelectorError Constraints → Result SelectorError Bool
  decide_overlap (ok m) = ok (all_satisfiable m)
  decide_overlap (err e) = err e

  unfoldable pub selectors_overlap :
      Option LabelSelector → Option LabelSelector → Result SelectorError Bool
  selectors_overlap none b = ok false
  selectors_overlap (some a) none = ok false
  selectors_overlap (some a) (some b) = decide_overlap (collect [] (a ∷ b ∷ []))
