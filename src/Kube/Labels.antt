-- ===== src/Kube/Labels.antt =====
-- Label selectors of apimachinery. None of this is code of the repository: the selector library is a
-- parameter with its documented behaviour.
use workload_class.Prelude.{
  ◌≡◌, Bool, true, false, not, ◌&&◌, Option, none, some, List, [], ◌∷◌, all, All, contains, Str,
  str_eq, lookup,
}

abbrev pub Labels : Type 0
Labels = List (Str × Str)

-- metav1.LabelSelectorOperator; a value outside the four is kept with its text.
pub data Operator : Type 0 where
  op_in op_not_in op_exists op_does_not_exist : Operator
  op_other : Str → Operator

pub record Requirement : Type 0 where
  pub key : Str
  pub operator : Operator
  pub values : List Str

pub record LabelSelector : Type 0 where
  pub match_labels : Labels
  pub match_expressions : List Requirement

-- The documented meaning of one requirement, at what the labels hold under its key.
unfoldable pub requirement_holds : Operator → List Str → Option Str → Bool
requirement_holds op_in vs none = false
requirement_holds op_in vs (some v) = contains vs v
requirement_holds op_not_in vs none = true
requirement_holds op_not_in vs (some v) = not (contains vs v)
requirement_holds op_exists vs none = false
requirement_holds op_exists vs (some v) = true
requirement_holds op_does_not_exist vs none = true
requirement_holds op_does_not_exist vs (some v) = false
requirement_holds (op_other o) vs v = false

abbrev pub is_known : Operator → Bool
is_known (op_other o) = false
is_known _ = true

-- `requirement_holds` of every requirement of the selector: its labels, then its expressions.
unfoldable pub satisfies : LabelSelector → Labels → Bool
unfolding requirement_holds
satisfies s l =
    all (λ p. requirement_holds op_in (p.1 ∷ []) (lookup p.0 l)) s.match_labels
    && all (λ r. requirement_holds r.operator r.values (lookup r.key l)) s.match_expressions

-- metav1.LabelSelectorAsSelector and Selector.Matches: which selectors are valid, and which labels
-- a valid one matches.
pub record SelectorLib : Type 0 where
  pub valid : LabelSelector → Bool
  pub matches : LabelSelector → Labels → Bool
  pub matches_lem : (s : LabelSelector) (l : Labels) → valid s ≡ true → matches s l ≡ satisfies s l
  -- An unknown operator makes a selector invalid.
  pub valid-known :
      (s : LabelSelector)
      → valid s ≡ true
      → All (λ r. is_known r.operator ≡ true) s.match_expressions
