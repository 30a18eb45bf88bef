-- ===== src/BestMatch/Better.antt =====
-- When updateBestMatch replaces the best match.
use native.Mathlib.Decide.{dec_lt, ℕ_discrete}
use workload_class.Prelude.{
  insert, str_eq, ℕ, ◌<◌, ◌≡◌, ◌⊎◌, inl, inr, arith, Bool, true, false, Option, none, some,
}
use workload_class.Prelude.Int.{ℤ, pos, negsuc}
use workload_class.Api.{WorkloadClass}
use workload_class.BestMatch.{
  record_best, namespaced_name, Selection, get_specificity, update_best_match,
}

pub false-ne-true : {b : Bool} → b ≡ false → b ≡ true → ⊥
false-ne-true h k = cc

abbrev pub specificity : WorkloadClass → ℕ
specificity wc = get_specificity wc.pod_selector

pub over :
    (x y z s t u : ℕ)
    → (y < x) ⊎ ((x ≡ y) × (s < t))
    → ¬ ((y < z) ⊎ ((z ≡ y) × (u < t)))
    → (z < x) ⊎ ((x ≡ z) × (s < u))
over x y z s t u h n =
    ground (arith, λ (p : y < z). n (inl p), λ (e : z ≡ y) (q : u < t). n (inr (e, q)))

-- `c` is more specific than `b`, or as specific and older.
abbrev pub Better : WorkloadClass → WorkloadClass → Type 0
Better c b =
    (specificity b < specificity c)
    ⊎ ((specificity c ≡ specificity b) × (c.creation_timestamp < b.creation_timestamp))

abbrev pub specificity_of : Option WorkloadClass → ℤ
specificity_of none = negsuc 0
specificity_of (some b) = pos (specificity b)

-- What the two returns of updateBestMatch leave in the variables.
abbrev pub replaced : WorkloadClass → Selection → Selection
replaced w s = record {
  best = some w;
  others = record_best s.best s.max_specificity s.others;
  max_specificity = pos (specificity w);
}

abbrev pub kept : WorkloadClass → Selection → Selection
kept w s = record s { others = insert (namespaced_name w) (pos (specificity w)) s.others }

pub update-first :
    (w : WorkloadClass) (s : Selection)
    → s.best ≡ none
    → s.max_specificity ≡ negsuc 0
    → update_best_match w s ≡ some (replaced w s)
unfolding update_best_match
update-first w s e m = ground arith

pub update-Better :
    (w b : WorkloadClass) (s : Selection)
    → s.best ≡ some b
    → s.max_specificity ≡ pos (specificity b)
    → Better w b
    → update_best_match w s ≡ some (replaced w s)
unfolding update_best_match
update-Better w b s e m h = ground arith

pub update-worse :
    (w b : WorkloadClass) (s : Selection)
    → s.best ≡ some b
    → s.max_specificity ≡ pos (specificity b)
    → ¬ Better w b
    → update_best_match w s ≡ some (kept w s)
unfolding update_best_match
update-worse w b s e m n = ground (
  arith,
  λ (p : specificity b < specificity w). n (inl p),
  λ (p : specificity w ≡ specificity b) (q : w.creation_timestamp < b.creation_timestamp).
      n (inr (p, q)),
)

pub dec-Better : (w b : WorkloadClass) → Better w b ⊎ ¬ Better w b
dec-Better w b = elim (dec_lt (specificity b) (specificity w)) [
  | yes p ↦ inl (inl p)
  | no p ↦ elim (dec_lt w.creation_timestamp b.creation_timestamp) [
    | yes q ↦ elim (ℕ_discrete (specificity w) (specificity b)) [
      | yes r ↦ inl (inr (r, q))
      | no r ↦ inr (λ h. elim h [ inl a ↦ p a | inr a ↦ r a.0 ])
    ]
    | no q ↦ inr (λ h. elim h [ inl a ↦ p a | inr a ↦ q a.1 ])
  ]
]
