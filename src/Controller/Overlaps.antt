-- ===== src/Controller/Overlaps.antt =====
-- Overlap is reported on both WorkloadClasses.
use workload_class.Prelude.{
  ◌≡◌, ◌↔◌, refl, sym, ap, ap₂, ◌∙◌, arith, Bool, true, false, ◌&&◌, ◌||◌, Option, none, some,
  ==_comm, str_eq, if◌then◌else◌, Bool-cases, inl, inr,
}
use workload_class.Kube.Labels.{LabelSelector, SelectorLib}
use workload_class.Api.{WorkloadClass}
use workload_class.Selector.{selectors_overlap}
use workload_class.Selector.Overlap.{selectors_overlap_iff, selectors_overlap_errors}
use workload_class.Controller.Validation.{overlap_or_skip, overlaps_with}

module _ (lib : SelectorLib) where
  abbrev share : Option LabelSelector → Option LabelSelector → Bool
  share a b = overlap_or_skip lib (selectors_overlap lib a b)

  same_bool : (d e : Bool) → (d ≡ true) ↔ (e ≡ true) → d ≡ e
  same_bool d e h = ground (arith, h)

  share-valid :
      (a b : LabelSelector)
      → lib.valid a ≡ true
      → lib.valid b ≡ true
      → share (some a) (some b) ≡ share (some b) (some a)
  share-valid a b va vb =
      let (d, reads, means) = selectors_overlap_iff lib a b va vb in
      let (e, reads', means') = selectors_overlap_iff lib b a vb va in
      let same = same_bool d e (
        (λ h. let (l, ma, mb) = means.0 h in means'.1 (l, mb, ma)),
        (λ h. let (l, mb, ma) = means'.0 h in means.1 (l, ma, mb)),
      ) in
      ap (overlap_or_skip lib) reads ∙ same ∙ sym (ap (overlap_or_skip lib) reads')

  share-invalid :
      (a b : LabelSelector) → (lib.valid a && lib.valid b) ≡ false → share (some a) (some b) ≡ false
  share-invalid a b h = ap (overlap_or_skip lib) (selectors_overlap_errors lib a b h).0

  share-symmetric : (a b : Option LabelSelector) → share a b ≡ share b a
  unfolding selectors_overlap
  share-symmetric none none = refl
  share-symmetric none (some b) = refl
  share-symmetric (some a) none = refl
  share-symmetric (some a) (some b) = elim (Bool-cases (lib.valid a && lib.valid b)) [
    | inl v ↦ share-valid a b (ground arith) (ground arith)
    | inr v ↦ share-invalid a b v ∙ sym (share-invalid b a (ground arith))
  ]

  -- Of two WorkloadClasses that are not being deleted, the first is reported for overlapping with the second
  -- exactly if the second is for overlapping with the first, invalid and missing selectors included.
  pub overlaps_with-symmetric :
      (a b : WorkloadClass)
      → a.deletion_timestamp ≡ none
      → b.deletion_timestamp ≡ none
      → overlaps_with lib a b ≡ overlaps_with lib b a
  unfolding overlaps_with
  overlaps_with-symmetric a b da db =
      rw (da, db)
        (ap₂ (λ c o. if c || false then false else o) (==_comm b.name a.name)
          (share-symmetric a.pod_selector b.pod_selector))
