-- ===== src/SpotRatio.antt =====
-- internal/utils/spotratio.go, gkespot.go and the percentages of gkespotguardrail_validation.go.
pub mod Share
pub mod Percent
use workload_class.Prelude.{
  ℕ, zero, suc, ◌+◌, ◌-◌, ◌*◌, ◌^◌, Bool, true, false, not, ◌&&◌, ◌||◌, Option, none, some, List,
  [], ◌∷◌, ◌++◌, leb, ltb, nat_beq, ◌==◌, str_eq, Str, lit, if◌then◌else◌, Result, ok, err,
}
use workload_class.Prelude.Int.{ℤ, pos, negsuc}
use workload_class.Api.{
  WorkloadClass, CapacityStrategy, InfrastructureProfileReference, SpotPlacementType, unset_type,
  spot, on_demand, other_type,
}

pub data PercentError : Type 0 where
  no_percent_sign not_a_number out_of_range : PercentError

abbrev pub is_digit : ℕ → Bool
is_digit c = leb b'0' c && leb c b'9'

-- The value of a run of digits, and none at any other byte.
unfoldable pub digits_value : ℕ → Str → Option ℕ
digits_value n [] = some n
digits_value n (c ∷ s) =
    let rest = digits_value (10 * n + (c - b'0')) s in if is_digit c then rest else none

abbrev pub to_positive : Option ℕ → Option ℤ
to_positive none = none
to_positive (some n) = if ltb n (2 ^ 63) then some (pos n) else none

abbrev pub negate : ℕ → ℤ
negate zero = pos 0
negate (suc n) = negsuc n

abbrev pub to_negative : Option ℕ → Option ℤ
to_negative none = none
to_negative (some n) = if leb n (2 ^ 63) then some (negate n) else none

unfoldable pub unsigned_value : Str → Option ℕ
unsigned_value [] = none
unsigned_value (c ∷ s) = digits_value 0 (c ∷ s)

-- strconv.Atoi: an optional sign, then digits, in the range of int64.
unfoldable pub atoi : Str → Option ℤ
atoi [] = none
atoi (c ∷ s) =
    if nat_beq c b'-'
    then to_negative (unsigned_value s)
    else if nat_beq c b'+'
    then to_positive (unsigned_value s)
    else to_positive (unsigned_value (c ∷ s))

-- strings.HasSuffix(s, "%") and what strings.TrimSuffix leaves; none without the suffix.
unfoldable pub before_percent : Str → Option Str
before_percent [] = none
before_percent (c ∷ []) = if nat_beq c b'%' then some [] else none
before_percent (c ∷ d ∷ s) = elim (before_percent (d ∷ s)) [ none ↦ none | some r ↦ some (c ∷ r) ]

abbrev pub in_percent_range : Option ℤ → Result PercentError ℕ
in_percent_range none = err not_a_number
in_percent_range (some (negsuc n)) = err out_of_range
in_percent_range (some (pos n)) = if ltb 100 n then err out_of_range else ok n

abbrev pub parse_number : Option Str → Result PercentError ℕ
parse_number none = err no_percent_sign
parse_number (some s) = in_percent_range (atoi s)

-- ParsePercentage
unfoldable pub parse_percentage : Str → Result PercentError ℕ
parse_percentage s = parse_number (before_percent s)

-- SpotRatioPercent
unfoldable pub spot_ratio_percent : Str → Result PercentError ℕ
spot_ratio_percent [] = ok 100
spot_ratio_percent (c ∷ s) = parse_percentage (c ∷ s)

-- ShouldUseSpot
unfoldable pub should_use_spot : ℕ → ℕ → ℕ → Bool
should_use_spot spot_existing total_existing spot_ratio =
    ltb (spot_existing * 100) ((total_existing + 1) * spot_ratio)

-- SpotShareMet, for counts, which are not negative.
unfoldable pub spot_share_met : ℕ → ℕ → ℕ → Bool
spot_share_met spot_pods zero spot_ratio = true
spot_share_met spot_pods (suc total) spot_ratio = not (should_use_spot spot_pods total spot_ratio)

-- percentagePattern: ^(100|[1-9]?[0-9])%$
unfoldable pub is_percentage : Str → Bool
is_percentage (a ∷ b ∷ []) = is_digit a && nat_beq b b'%'
is_percentage (a ∷ b ∷ c ∷ []) = (leb b'1' a && leb a b'9') && (is_digit b && nat_beq c b'%')
is_percentage (a ∷ b ∷ c ∷ d ∷ []) =
    nat_beq a b'1' && (nat_beq b b'0' && (nat_beq c b'0' && nat_beq d b'%'))
is_percentage _ = false

abbrev pub atoi_before : Option Str → Option ℤ
atoi_before none = none
atoi_before (some s) = atoi s

-- guardrailPercent; TrimSuffix has a suffix to trim wherever the pattern matches.
unfoldable pub guardrail_percent : Str → Option ℤ
guardrail_percent s = if is_percentage s then atoi_before (before_percent s) else none

abbrev pub policy_kind : Str
policy_kind = lit "GKESpotPlacementPolicy"

-- ReferencesGKESpotPlacementPolicy
unfoldable pub references_spot_placement_policy : Option InfrastructureProfileReference → Bool
references_spot_placement_policy none = false
references_spot_placement_policy (some ref) =
    (ref.kind == policy_kind) && ((ref.group == []) || (ref.group == lit "workloads.gke.io"))

abbrev pub is_spot_type : SpotPlacementType → Bool
is_spot_type unset_type = true
is_spot_type spot = true
is_spot_type on_demand = false
is_spot_type (other_type t) = false

abbrev pub above_zero : Result PercentError ℕ → Bool
above_zero (ok n) = ltb 0 n
above_zero (err e) = false

abbrev pub strategy_targets_spot : Option CapacityStrategy → Bool
strategy_targets_spot none = false
strategy_targets_spot (some cs) =
    if is_spot_type cs.type then above_zero (spot_ratio_percent cs.spot_ratio) else false

-- TargetsSpot
unfoldable pub targets_spot : Option WorkloadClass → Bool
targets_spot none = false
targets_spot (some wc) = strategy_targets_spot wc.capacity_strategy

abbrev pub profile_is_spot : Option InfrastructureProfileReference → Bool
profile_is_spot none = true
profile_is_spot (some ref) = references_spot_placement_policy (some ref)

abbrev pub managed_by : Option CapacityStrategy → Option InfrastructureProfileReference → Bool
managed_by none ref = false
managed_by (some cs) ref = profile_is_spot ref

-- IsGKESpotManaged
unfoldable pub is_gke_spot_managed : Option WorkloadClass → Bool
is_gke_spot_managed none = false
is_gke_spot_managed (some wc) = managed_by wc.capacity_strategy wc.infrastructure_profile_ref
