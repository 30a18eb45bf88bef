-- ===== src/Controller/Truncated.antt =====
-- How long a condition's message can get, and where it is cut.
use workload_class.Prelude.{
  ℕ, zero, suc, ◌+◌, ◌-◌, ◌≤◌, ◌<◌, ◌≡◌, ◌⊎◌, inl, inr, refl, arith, true, ◌++◌, length,
  length-append, length-take-le, take, leb, leb→le, Str, lit, Bool-cases,
}
use workload_class.Controller.Messages.{ellipsis, starts_rune_at, cut_at, truncate_message}

cut-le : (msg : Str) (n : ℕ) → cut_at msg n ≤ n
unfolding cut_at
cut-le msg zero = omega arith
cut-le msg (suc n) = ground (arith, cut-le msg n)

cut-starts : (msg : Str) (n : ℕ) → (cut_at msg n ≡ 0) ⊎ (starts_rune_at msg (cut_at msg n) ≡ true)
unfolding cut_at
cut-starts msg zero = inl refl
cut-starts msg (suc n) = elim (Bool-cases (starts_rune_at msg (suc n))) [
  | inl e ↦ inr (rw (e, e) refl)
  | inr e ↦ rw e (cut-starts msg n)
]

dots : length ellipsis ≡ 3
unfolding lit
dots = refl

-- How the message was cut.
pub data Cut (msg : Str) (max_len : ℕ) (text : Str) : Type 0 where
  whole : length msg ≤ max_len → text ≡ msg → Cut msg max_len text
  dots_only :
      max_len ≤ 3 → max_len < length msg → text ≡ take max_len ellipsis → Cut msg max_len text
  shortened :
      (cut : ℕ)
      → 3 < max_len
      → max_len < length msg
      → cut + 3 ≤ max_len
      → (cut ≡ 0) ⊎ (starts_rune_at msg cut ≡ true)
      → text ≡ take cut msg ++ ellipsis
      → Cut msg max_len text

truncate_message-Cut : (msg : Str) (max_len : ℕ) → Cut msg max_len (truncate_message msg max_len)
unfolding truncate_message
truncate_message-Cut msg max_len = elim (Bool-cases (leb (length msg) max_len)) [
  | inl fits ↦ whole (leb→le _ _ fits) (rw fits refl)
  | inr long ↦ elim (Bool-cases (leb max_len (length ellipsis))) [
    | inl small ↦ dots_only (ground (arith, dots)) (ground arith) (rw (long, small) refl)
    | inr large ↦
        shortened (cut_at msg (max_len - length ellipsis)) (ground (arith, dots)) (ground arith)
          (ground (arith, dots, cut-le msg (max_len - length ellipsis))) (cut-starts msg _)
          (rw (long, large) refl)
  ]
]

Cut-fits : (msg : Str) (max_len : ℕ) (text : Str) → Cut msg max_len text → length text ≤ max_len
Cut-fits msg max_len text (whole h e) = rw e h
Cut-fits msg max_len text (dots_only h k e) = rw e (length-take-le max_len ellipsis)
Cut-fits msg max_len text (shortened cut h k fits b e) =
    rw e (omega (arith, length-append (take cut msg) ellipsis, length-take-le cut msg, dots))

-- A truncated message has at most the given number of bytes. A message that fits is kept; a longer one
-- becomes, for a limit above 3, a prefix of the message and "...", where the prefix is empty or ends where
-- a character of the message begins, and for a smaller limit dots alone.
pub truncate_message-fits :
    (msg : Str) (max_len : ℕ)
    → (length (truncate_message msg max_len) ≤ max_len)
      × Cut msg max_len (truncate_message msg max_len)
truncate_message-fits msg max_len =
    let cut = truncate_message-Cut msg max_len in (Cut-fits msg max_len _ cut, cut)
