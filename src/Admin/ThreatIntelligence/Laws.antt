-- ===== src/Admin/ThreatIntelligence/Laws.antt =====
-- The figures of the threats, and investigations that overtake each other.
use trusyn_ai.Prelude.{
  ℕ, sym, ◌≤◌, ◌≡◌, refl, Text, List, [], ◌∷◌, if◌then◌else◌, ◌==◌, none, some, arith, length, map,
  Bool, true, false, not, ◌&&◌, ◌||◌, zero, suc, is_empty, text_eq, codes, ◌-◌, ◌*◌, ◌+◌,
}
use trusyn_ai.Runtime.Value.{Value, undefined, null, boolean, num, str, arr, obj, is_truthy, lookup}
use trusyn_ai.Types.Governance.{ThreatDto, ThreatInvestigationDto}
use trusyn_ai.Admin.Common.{answered, spaced, count_if}
use trusyn_ai.Admin.Counting.{
  count_if_le, count_if-not, percent_le, percent-nearest, bars_of, bars_of-tally_all, occurrences,
}
use trusyn_ai.Admin.ThreatIntelligence.{
  ThreatIntelligence, open_investigation_start, open_investigation_finish, avg_response_time,
  block_rate, inferred_block, threat_type_data, is_text,
}

abbrev pub types_of : ThreatIntelligence → List Text
types_of p = map (λ (t : ThreatDto). spaced t.threat_type) p.threats

-- the decisions that do not block: none, an empty one, `ALLOW` and `REVIEW`
abbrev pub lets_through : Value → Bool
lets_through undefined = true
lets_through null = true
lets_through (boolean b) = not b
lets_through (num zero) = true
lets_through (num (suc n)) = false
lets_through (str t) = is_empty t || text_eq t (codes "ALLOW") || text_eq t (codes "REVIEW")
lets_through (arr vs) = false
lets_through (obj fields) = false

decided :
    (v : Value)
    → (is_truthy v && not (is_text (codes "ALLOW") v) && not (is_text (codes "REVIEW") v))
      ≡ not (lets_through v)
decided undefined = refl
decided null = refl
decided (boolean true) = refl
decided (boolean false) = refl
decided (num zero) = refl
decided (num (suc n)) = refl
decided (str []) = refl
decided (str (c ∷ t)) = ground arith
decided (arr vs) = refl
decided (obj fields) = refl

-- the threats whose decision blocks
abbrev pub blocked_of : ThreatIntelligence → ℕ
blocked_of p =
    length p.threats
    - count_if (λ (t : ThreatDto). lets_through (lookup "decision" t.raw_payload)) p.threats

rate-nearest :
    (p : ThreatIntelligence)
    → (2 * length p.threats * block_rate p ≤ 200 * blocked_of p + length p.threats)
      × (200 * blocked_of p ≤ 2 * length p.threats * block_rate p + length p.threats)
unfolding block_rate inferred_block
rate-nearest p =
    let through : ThreatDto → Bool = λ t. lets_through (lookup "decision" t.raw_payload) in
    let blocked =
      count_if-not inferred_block through p.threats
        (λ t. decided (lookup "decision" t.raw_payload)) in
    rw (sym blocked) (
      percent-nearest (count_if inferred_block p.threats) (length p.threats)
        (count_if_le inferred_block p.threats))

-- The block rate is the share of the threats whose decision is there and is neither `ALLOW` nor
-- `REVIEW`, rounded to the nearest per cent, and at most 100; the response time is from 65 to 199
-- milliseconds, and the chart has one bar for each type that occurs, as high as the type is
-- frequent, and none for any other.
pub block_rate-bounds :
    (key : Text) (p : ThreatIntelligence)
    → (block_rate p ≤ 100)
      × (2 * length p.threats * block_rate p ≤ 200 * blocked_of p + length p.threats)
      × (200 * blocked_of p ≤ 2 * length p.threats * block_rate p + length p.threats)
      × (65 ≤ avg_response_time p)
      × (avg_response_time p ≤ 199)
      × (bars_of key (threat_type_data p)
          ≡ (if occurrences key (types_of p) == 0 then [] else occurrences key (types_of p) ∷ []))
unfolding block_rate avg_response_time threat_type_data
block_rate-bounds key p = (
  percent_le _ (length p.threats) (count_if_le inferred_block p.threats),
  (rate-nearest p).0,
  (rate-nearest p).1,
  ground arith,
  ground arith,
  bars_of-tally_all key (types_of p),
)

-- An investigation that comes late is shown for the wrong threat: where a second threat is opened
-- before the investigation of the first one is there, the sheet of the second shows the
-- investigation of the first until its own comes, and for good where its own came before.
pub open_investigation-race :
    (a b : ThreatDto) (for_a for_b : ThreatInvestigationDto) (p : ThreatIntelligence)
    → let opened = open_investigation_start b (open_investigation_start a p) in
      let early = open_investigation_finish (answered for_a) opened in
      let both =
        open_investigation_finish
          (answered for_a)
          (open_investigation_finish (answered for_b) opened) in
      (opened.investigation ≡ none)
      × (early.selected_threat ≡ some b)
      × (early.investigation ≡ some for_a)
      × (both.selected_threat ≡ some b)
      × (both.investigation ≡ some for_a)
unfolding open_investigation_start open_investigation_finish
open_investigation-race a b for_a for_b p = (refl, refl, refl, refl, refl)
