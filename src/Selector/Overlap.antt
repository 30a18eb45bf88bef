-- ===== src/Selector/Overlap.antt =====
-- SelectorsOverlap decides whether some labels satisfy both selectors.
use workload_class.Prelude.{
  ◌&&◌, false, if◌then◌else◌, ◌≡◌, refl, ◌↔◌, arith, Bool, true, false, none, some, [], str_eq, ok,
  err,
}
use workload_class.Kube.Labels.{Labels, LabelSelector, SelectorLib, satisfies}
use workload_class.Selector.{
  invalid_label_selector, Constraints, add_labels, add_expressions, all_satisfiable, collect,
  selectors_overlap,
}
use workload_class.Selector.Sound.{
  add_labels-Sound, add_expressions-Sound, Sound-all_satisfiable, Sound,
}
use workload_class.Selector.Solution.{
  Meets, Meets-add_labels, Meets-add_expressions, solution, solution-Meets,
}

module _ (lib : SelectorLib) where
  add_selector-Sound :
      (m : Constraints) (s : LabelSelector) (l : Labels)
      → lib.valid s ≡ true
      → lib.matches s l ≡ true
      → Sound m l
      → Sound (add_expressions (add_labels m s.match_labels) s.match_expressions) l
  unfolding satisfies
  add_selector-Sound m s l v h sound =
      let sat : satisfies s l ≡ true = rw (← lib.matches_lem s l v) h in
      add_expressions-Sound (add_labels m s.match_labels) s.match_expressions l
        (lib.valid-known s v) (ground arith)
        (add_labels-Sound m s.match_labels l (ground arith) sound)

  Meets-add_selector :
      (m : Constraints) (s : LabelSelector) (l : Labels)
      → lib.valid s ≡ true
      → Meets (add_expressions (add_labels m s.match_labels) s.match_expressions) l
      → Meets m l × (lib.matches s l ≡ true)
  unfolding satisfies
  Meets-add_selector m s l v h =
      let (most, exprs) =
        Meets-add_expressions (add_labels m s.match_labels) s.match_expressions l
          (lib.valid-known s v) h in
      let (old, ls) = Meets-add_labels m s.match_labels l most in
      (old, rw (lib.matches_lem s l v) (ground (arith, exprs, ls)))

  abbrev combined : LabelSelector → LabelSelector → Constraints
  combined a b =
      add_expressions
        (add_labels (add_expressions (add_labels [] a.match_labels) a.match_expressions)
          b.match_labels)
        b.match_expressions

  selectors_overlap-combined :
      (a b : LabelSelector)
      → lib.valid a ≡ true
      → lib.valid b ≡ true
      → selectors_overlap lib (some a) (some b) ≡ ok (all_satisfiable (combined a b))
  unfolding selectors_overlap collect
  selectors_overlap-combined a b va vb = rw (va, vb) refl

  -- For two valid selectors SelectorsOverlap returns without an error, and it returns true
  -- exactly if some labels are matched by both. The values of labels range over all texts.
  pub selectors_overlap_iff :
      (a b : LabelSelector)
      → lib.valid a ≡ true
      → lib.valid b ≡ true
      → (d : Bool) × (selectors_overlap lib (some a) (some b) ≡ ok d)
        × ((d ≡ true) ↔ ((l : Labels) × (lib.matches a l ≡ true) × (lib.matches b l ≡ true)))
  selectors_overlap_iff a b va vb =
      (all_satisfiable (combined a b), selectors_overlap-combined a b va vb, (found, sound))
    where
      first_of_two : Constraints
      first_of_two = add_expressions (add_labels [] a.match_labels) a.match_expressions

      found :
          all_satisfiable (combined a b) ≡ true
          → (l : Labels) × (lib.matches a l ≡ true) × (lib.matches b l ≡ true)
      found e =
          let l = solution (combined a b) in
          let (rest, mb) =
            Meets-add_selector first_of_two b l vb (solution-Meets (combined a b) e) in
          let (_, ma) = Meets-add_selector [] a l va rest in (l, ma, mb)

      sound :
          (l : Labels) × (lib.matches a l ≡ true) × (lib.matches b l ≡ true)
          → all_satisfiable (combined a b) ≡ true
      sound (l, ma, mb) =
          Sound-all_satisfiable (combined a b) l
            (add_selector-Sound first_of_two b l vb mb (add_selector-Sound [] a l va ma tt))

  -- If one of two selectors is invalid, SelectorsOverlap reports it, and the first one if both are; if
  -- one argument is nil the other is not looked at, and there is no overlap.
  pub selectors_overlap_errors :
      (a b : LabelSelector)
      → (lib.valid a && lib.valid b) ≡ false
      → (selectors_overlap lib (some a) (some b)
          ≡ err (invalid_label_selector (if lib.valid a then b else a)))
        × (selectors_overlap lib none (some b) ≡ ok false)
        × (selectors_overlap lib (some a) none ≡ ok false)
  unfolding selectors_overlap collect
  selectors_overlap_errors a b h = (ground arith, refl, refl)
