-- ===== src/BestMatch/Selected.antt =====
-- selectBestMatchFromList never panics, and returns the most specific candidate, of these the
-- oldest, of these the first in the list.
use mathlib.Core.List.{append-nil, append_assoc}
use workload_class.Prelude.{
  str_eq, ◌≡◌, refl, sym, subst, ap, inl, inr, arith, true, Option, none, some, List, [], ◌∷◌, ◌++◌,
  All, All-append, All-map, Bool-cases, ◌∙◌,
}
use workload_class.Kube.Labels.{SelectorLib}
use workload_class.Kube.Objects.{Pod}
use workload_class.Api.{WorkloadClass}
use workload_class.BestMatch.{
  Selection, update_best_match, is_candidate, select_from, select_best_match_from_list,
}
use workload_class.BestMatch.Better.{
  false-ne-true, over, specificity, Better, specificity_of, replaced, kept, update-first,
  update-Better, update-worse, dec-Better,
}

module _ (lib : SelectorLib) (pod : Pod) where
  abbrev pub Candidate : WorkloadClass → Type 0
  Candidate wc = is_candidate lib pod wc ≡ true

  -- `b` is the choice from the list: better than each candidate before it, and no candidate behind
  -- it is better.
  pub record IsBest (l : List WorkloadClass) (b : WorkloadClass) : Type 0 where
    pub before : List WorkloadClass
    pub after : List WorkloadClass
    pub splits : l ≡ before ++ b ∷ after
    pub candidate : Candidate b
    pub beats : All (λ w. Candidate w → Better b w) before
    pub unbeaten : All (λ w. Candidate w → ¬ Better w b) after

  abbrev NoCandidate : List WorkloadClass → Type 0
  NoCandidate l = All (λ w. ¬ Candidate w) l

  abbrev pub Chosen : List WorkloadClass → Option WorkloadClass → Type 0
  Chosen l none = NoCandidate l
  Chosen l (some b) = IsBest l b

  record Inv (l : List WorkloadClass) (s : Selection) : Type 0 where
    chosen : Chosen l s.best
    current : s.max_specificity ≡ specificity_of s.best

  Better-trans : (a b c : WorkloadClass) → Better a b → Better b c → Better a c
  Better-trans a b c h k = ground arith

  Better-over : (w b v : WorkloadClass) → Better w b → ¬ Better v b → Better w v
  Better-over w b v h n =
      over (specificity w) (specificity b) (specificity v) w.creation_timestamp b.creation_timestamp
        v.creation_timestamp h n

  skip-Chosen :
      (l : List WorkloadClass) (w : WorkloadClass) (o : Option WorkloadClass)
      → ¬ Candidate w
      → Chosen l o
      → Chosen (l ++ w ∷ []) o
  skip-Chosen l w none n h = All-append _ l (w ∷ []) h (n, tt)
  skip-Chosen l w (some b) n h = record {
    before = h.before;
    after = h.after ++ w ∷ [];
    splits = ap (λ k. k ++ w ∷ []) h.splits ∙ append_assoc h.before (b ∷ h.after) (w ∷ []);
    candidate = h.candidate;
    beats = h.beats;
    unbeaten = All-append _ h.after (w ∷ []) h.unbeaten ((λ c. absurd (n c)), tt);
  }

  keep-IsBest :
      (l : List WorkloadClass) (w b : WorkloadClass)
      → ¬ Better w b
      → IsBest l b
      → IsBest (l ++ w ∷ []) b
  keep-IsBest l w b n h = record {
    before = h.before;
    after = h.after ++ w ∷ [];
    splits = ap (λ k. k ++ w ∷ []) h.splits ∙ append_assoc h.before (b ∷ h.after) (w ∷ []);
    candidate = h.candidate;
    beats = h.beats;
    unbeaten = All-append _ h.after (w ∷ []) h.unbeaten ((λ c. n), tt);
  }

  -- What `b` beats, a better `w` beats too, and so it does what `b` is not beaten by.
  replace-IsBest :
      (l : List WorkloadClass) (w b : WorkloadClass)
      → Candidate w
      → Better w b
      → IsBest l b
      → IsBest (l ++ w ∷ []) w
  replace-IsBest l w b c better h = record {
    before = l;
    after = [];
    splits = refl;
    candidate = c;
    beats = subst (All (λ v. Candidate v → Better w v)) (sym h.splits) (
        All-append _ h.before (b ∷ h.after)
          (All-map _ _ (λ v k cv. Better-trans w b v better (k cv)) h.before h.beats)
          (
            (λ _. better),
            All-map _ _ (λ v k cv. Better-over w b v better (k cv)) h.after h.unbeaten,
          ));
    unbeaten = tt;
  }

  update-Inv :
      (l : List WorkloadClass) (w : WorkloadClass) (s : Selection) (o : Option WorkloadClass)
      → Candidate w
      → s.best ≡ o
      → Chosen l o
      → s.max_specificity ≡ specificity_of o
      → (t : Selection) × (update_best_match w s ≡ some t) × Inv (l ++ w ∷ []) t
  update-Inv l w s none c e k m = (
    replaced w s,
    update-first w s e m,
    record {
      chosen = record {
        before = l;
        after = [];
        splits = refl;
        candidate = c;
        beats = All-map _ _ (λ v n cv. absurd (n cv)) l k;
        unbeaten = tt;
      };
      current = refl;
    },
  )
  update-Inv l w s (some b) c e k m = elim (dec-Better w b) [
    | inl h ↦ (
      replaced w s,
      update-Better w b s e m h,
      record { chosen = replace-IsBest l w b c h k; current = refl },
    )
    | inr n ↦ (
      kept w s,
      update-worse w b s e m n,
      record {
        chosen = subst (Chosen (l ++ w ∷ [])) (sym e) (keep-IsBest l w b n k);
        current = m ∙ ap specificity_of (sym e);
      },
    )
  ]

  skip-Inv :
      (l : List WorkloadClass) (w : WorkloadClass) (s : Selection)
      → ¬ Candidate w
      → Inv l s
      → Inv (l ++ w ∷ []) s
  skip-Inv l w s n h = record { chosen = skip-Chosen l w s.best n h.chosen; current = h.current }

  select_from-Inv :
      (l wcs : List WorkloadClass) (s : Selection)
      → Inv l s
      → (t : Selection) × (select_from lib pod wcs s ≡ some t) × Inv (l ++ wcs) t
  unfolding select_from
  select_from-Inv l [] s h = (s, refl, rw append-nil h)
  select_from-Inv l (w ∷ wcs) s h = elim (Bool-cases (is_candidate lib pod w)) [
    | inl c ↦
        let (s', e, h') = update-Inv l w s s.best c refl h.chosen h.current in
        let (t, f, k) = select_from-Inv (l ++ w ∷ []) wcs s' h' in
        (t, rw (c, e, select_from) f, subst (λ x. Inv x t) (append_assoc l (w ∷ []) wcs) k)
    | inr n ↦
        let (t, f, k) =
          select_from-Inv (l ++ w ∷ []) wcs s (skip-Inv l w s (λ c. false-ne-true n c) h) in
        (t, rw n f, subst (λ x. Inv x t) (append_assoc l (w ∷ []) wcs) k)
  ]

  -- selectBestMatchFromList never dereferences nil, and what it returns is a candidate that is
  -- better than every candidate before it in the list and not worse than any behind it, where better
  -- means more specific, or as specific and older; it returns nil exactly if there is no candidate.
  pub select_best_match_best :
      (wcs : List WorkloadClass)
      → (t : Selection) × (select_best_match_from_list lib pod wcs ≡ some t) × Chosen wcs t.best
  unfolding select_best_match_from_list
  select_best_match_best wcs =
      let (t, e, h) = select_from-Inv [] wcs _ (record { chosen = tt; current = refl }) in
      (t, e, h.chosen)
