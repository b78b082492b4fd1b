-- ===== src/Admin/AiAgents/Laws.antt =====
-- The figures of the agents, the search, and loads that overtake each other.
use trusyn_ai.Prelude.{
  ℕ, ◌+◌, ◌*◌, ◌≤◌, ◌≡◌, refl, false, Option, List, [], ◌∷◌, arith, Bool-cases, inl, inr, length,
  map, ◌==◌,
}
use trusyn_ai.Types.Common.{PaginatedResult}
use trusyn_ai.Types.Governance.{AgentDto, AgentStatus, operational, warning, quarantined, blocked}
use trusyn_ai.Admin.Common.{answered, count_if, sum}
use trusyn_ai.Admin.Counting.{round_ratio_le}
use trusyn_ai.Admin.AiAgents.{
  AiAgents, TimelinePoint, build_timeline, load_agents_start, load_agents_finish,
  change_status_filter, is_status, status_count, avg_trust_score,
}

-- Every score of the list is at most 100.
abbrev pub AllScores : List AgentDto → Type 0
AllScores [] = Unit
AllScores (a ∷ agents) = (a.trust_score ≤ 100) × AllScores agents

abbrev counted : AgentStatus → List AgentDto → ℕ
counted status agents = count_if (λ (a : AgentDto). is_status status a.status) agents

counted_all :
    (agents : List AgentDto)
    → counted operational agents
        + counted warning agents
        + counted quarantined agents
        + counted blocked agents
      ≡ length agents
counted_all [] = omega arith
counted_all (a ∷ agents) = ground (arith, counted_all agents)

sum_le :
    (agents : List AgentDto)
    → AllScores agents
    → sum (map (λ (a : AgentDto). a.trust_score) agents) ≤ 100 * length agents
sum_le [] h = omega arith
sum_le (a ∷ agents) h = omega (arith, h.0, sum_le agents h.1)

-- The four counts add up to the agents of the list, and the average of scores up to 100 is at
-- most 100.
pub status_count-avg_trust_score :
    (p : AiAgents)
    → AllScores p.agents
    → (status_count operational p
          + status_count warning p
          + status_count quarantined p
          + status_count blocked p
        ≡ length p.agents)
      × (avg_trust_score p ≤ 100)
unfolding status_count avg_trust_score
status_count-avg_trust_score p h = (
  counted_all p.agents,
  elim (Bool-cases (length p.agents == 0)) [
    | inl empty ↦ rw empty (omega arith)
    | inr some_there ↦
        rw some_there
          (round_ratio_le _ (length p.agents) (ground (arith, some_there)) (sum_le p.agents h))
  ],
)

abbrev pub AllPoints : List TimelinePoint → Type 0
AllPoints [] = Unit
AllPoints (point ∷ points) = (4 ≤ point.actions) × (point.risks ≤ 7) × AllPoints points

-- Whatever the score, each point of the timeline has at least four actions and at most seven
-- risks.
pub build_timeline-bounds : (score : ℕ) → AllPoints (build_timeline score)
unfolding build_timeline
build_timeline-bounds score = omega arith

-- Loads may overtake each other: where the answer for an earlier filter comes after that for a
-- later one, the page shows the agents of the earlier filter under the later one, as loaded.
pub load_agents-late :
    (first second : Option AgentStatus) (early late : PaginatedResult AgentDto) (p : AiAgents)
    → let asked = (change_status_filter second (change_status_filter first p).0).0 in
      let p' = load_agents_finish (answered early) (load_agents_finish (answered late) asked) in
      (p'.status_filter ≡ second) × (p'.agents ≡ early.items) × (p'.loading ≡ false)
unfolding change_status_filter load_agents_start load_agents_finish
load_agents-late first second early late p = (refl, refl, refl)
