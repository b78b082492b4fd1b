-- ===== src/Admin/Overview/Laws.antt =====
-- The charts of the overview, and the names of the organizations.
use trusyn_ai.Prelude.{ℕ, ◌+◌, ◌≡◌, List, [], ◌∷◌, map, arith, length, length-map}
use trusyn_ai.Types.Common.{Severity, low, medium, high, critical}
use trusyn_ai.Types.Reports.{PlatformThreat}
use trusyn_ai.Admin.Common.{spaced}
use trusyn_ai.Admin.Counting.{total_of, tally-counts}
use trusyn_ai.Admin.Overview.{
  ViewState, Buckets, no_buckets, add_threat, distribute, recent_of, risk_distribution,
  blocked_actions_data,
}

abbrev pub all_of : Buckets → ℕ
all_of b = b.low_count + b.medium_count + b.high_count + b.critical_count

all_of-add_threat : (s : Severity) (b : Buckets) → all_of (add_threat s b) ≡ all_of b + 1
all_of-add_threat low b = omega arith
all_of-add_threat medium b = omega arith
all_of-add_threat high b = omega arith
all_of-add_threat critical b = omega arith

all_of-distribute :
    (threats : List PlatformThreat) (b : Buckets)
    → all_of (distribute threats b) ≡ length threats + all_of b
unfolding distribute
all_of-distribute [] b = omega arith
all_of-distribute (t ∷ threats) b =
    omega
      (arith, all_of-distribute threats (add_threat t.severity b), all_of-add_threat t.severity b)

-- The two charts of the recent threats agree: the four buckets of the risk distribution add up to
-- the number of threats, and so do the bars of the types.
pub risk_distribution-blocked_actions_data :
    (p : ViewState)
    → (all_of (risk_distribution p) ≡ length (recent_of p.platform))
      × (total_of (blocked_actions_data p) ≡ all_of (risk_distribution p))
unfolding risk_distribution blocked_actions_data
risk_distribution-blocked_actions_data p =
    let threats = recent_of p.platform in
    let risks = all_of-distribute threats no_buckets in
    let bars = tally-counts [] (map (λ (t : PlatformThreat). spaced t.threat_type) threats) in
    let same = length-map threats (λ (t : PlatformThreat). spaced t.threat_type) in
    (omega (arith, risks), omega (arith, risks, bars.1, same))
