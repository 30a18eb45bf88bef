-- ===== src/SpotRatio/Share.antt =====
-- Placing Pods one by one by ShouldUseSpot keeps the Spot share on or just above the target.
use workload_class.Prelude.{
  ℕ, zero, suc, ◌+◌, ◌*◌, ◌≤◌, ◌<◌, ◌≡◌, ◌↔◌, refl, arith, true, if◌then◌else◌,
}
use workload_class.SpotRatio.{should_use_spot, spot_share_met}

-- The Pods of a workload: those on Spot, and all.
pub record Counts : Type 0 where
  pub spot_pods : ℕ
  pub total : ℕ

-- One Pod is admitted.
pub admit : ℕ → Counts → Counts
admit ratio c =
    if should_use_spot c.spot_pods c.total ratio
    then record { spot_pods = c.spot_pods + 1; total = c.total + 1 }
    else record c { total = c.total + 1 }

pub admit_times : ℕ → ℕ → Counts → Counts
admit_times ratio zero c = c
admit_times ratio (suc n) c = admit_times ratio n (admit ratio c)

-- 100 times the Spot Pods are at least ratio times all Pods, and exceed that by less than 100.
abbrev pub OnTarget : ℕ → Counts → Type 0
OnTarget ratio c =
    (c.total * ratio ≤ c.spot_pods * 100) × (c.spot_pods * 100 < c.total * ratio + 100)

admit-OnTarget :
    (ratio : ℕ) (c : Counts) → ratio ≤ 100 → OnTarget ratio c → OnTarget ratio (admit ratio c)
unfolding admit should_use_spot
admit-OnTarget ratio c r h = ground arith

OnTarget-met :
    (ratio total spot_pods : ℕ)
    → total * ratio ≤ spot_pods * 100
    → spot_share_met spot_pods total ratio ≡ true
unfolding spot_share_met should_use_spot
OnTarget-met ratio zero spot_pods h = refl
OnTarget-met ratio (suc total) spot_pods h = ground arith

-- From any workload on target, such as one without Pods, any number of admissions at a ratio of at most
-- 100 percent keeps the share on target, and SpotShareMet agrees.
pub admit_times-OnTarget :
    (ratio n : ℕ) (c : Counts)
    → ratio ≤ 100
    → OnTarget ratio c
    → OnTarget ratio (admit_times ratio n c)
      × (spot_share_met (admit_times ratio n c).spot_pods (admit_times ratio n c).total ratio
          ≡ true)
unfolding admit_times
admit_times-OnTarget ratio zero c r h = (h, OnTarget-met ratio c.total c.spot_pods h.0)
admit_times-OnTarget ratio (suc n) c r h =
    admit_times-OnTarget ratio n (admit ratio c) r (admit-OnTarget ratio c r h)

met-share :
    (spot_pods total ratio : ℕ)
    → spot_share_met spot_pods total ratio ≡ true
    → total * ratio ≤ spot_pods * 100
unfolding spot_share_met should_use_spot
met-share spot_pods zero ratio h = omega arith
met-share spot_pods (suc total) ratio h = ground arith

-- For a ratio of at most 100 percent, SpotShareMet holds exactly if the Spot Pods are at least ratio
-- percent of all, and it holds if all Pods are on Spot.
pub spot_share_met_iff :
    (spot_pods total ratio : ℕ)
    → ratio ≤ 100
    → ((spot_share_met spot_pods total ratio ≡ true) ↔ (total * ratio ≤ spot_pods * 100))
      × (spot_share_met total total ratio ≡ true)
spot_share_met_iff spot_pods total ratio r = (
  (met-share spot_pods total ratio, OnTarget-met ratio total spot_pods),
  OnTarget-met ratio total total (grind arith),
)
