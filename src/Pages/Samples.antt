-- ===== src/Pages/Samples.antt =====
-- The theorems on the threats page, applied to a small page.
use trusyn_ai.Prelude.{◌≡◌, ◌≢◌, refl, text_eq, codes, true, false, none, some, []}
use trusyn_ai.Runtime.Monad.{throw, other}
use trusyn_ai.Pages.Threats.{
  ThreatPage, select_threat, settle_investigation, asked, Reach, start, then_step, selects,
}
use trusyn_ai.Pages.Threats.Laws.{settle_investigation-stale, select_threat-stuck}
use trusyn_ai.Pages.AgentSamples.{empty_list, a_ne_b}

abbrev first_page : ThreatPage
first_page = record {
  list = empty_list;
  severity_filter = none;
  investigation = none;
  detail_loading = false;
  current = none;
  runs = [];
  next_run = 0;
}

-- One threat is selected, and then another one, before the first investigation is there.
abbrev one_selected : ThreatPage
one_selected = select_threat (some (codes "a")) first_page

abbrev two_selected : ThreatPage
two_selected = select_threat (some (codes "b")) one_selected

two_selected-Reach : Reach first_page two_selected
two_selected-Reach =
    then_step (then_step start (selects (some (codes "a")) refl)) (selects (some (codes "b")) refl)

asked-first : asked 0 two_selected.runs ≡ some (codes "a")
unfolding select_threat text_eq
asked-first = refl

selected-second : two_selected.list.selected_id ≢ some (codes "a")
unfolding select_threat text_eq
selected-second = λ e. a_ne_b (cc)

settle_investigation-stale_example :
    settle_investigation 0 (throw other) two_selected ≡ two_selected
settle_investigation-stale_example =
    settle_investigation-stale first_page two_selected 0 (codes "a") (throw other) refl
      two_selected-Reach asked-first selected-second

one_selected-id : one_selected.list.selected_id ≡ some (codes "a")
unfolding select_threat
one_selected-id = refl

one_selected-loading : one_selected.detail_loading ≡ true
unfolding select_threat
one_selected-loading = refl

select_threat-stuck_example :
    let p' = select_threat none one_selected in
    (p'.detail_loading ≡ true)
    × (p'.list.selected_id ≡ none)
    × (settle_investigation 0 (throw other) p' ≡ p')
select_threat-stuck_example =
    select_threat-stuck one_selected (codes "a") 0 (throw other) one_selected-id
      one_selected-loading
