-- ===== src/Admin/SystemHealth/Laws.antt =====
-- When the page says that all systems are operational.
use trusyn_ai.Prelude.{
  ◌*◌, ◌≤◌, ◌≡◌, refl, Text, text_eq, text_eq_iff, codes, true, Option, some, arith,
}
use trusyn_ai.Runtime.Value.{Value}
use trusyn_ai.Admin.Common.{answered, failed, error_text}
use trusyn_ai.Admin.SystemHealth.{
  SystemHealth, HealthAnswers, first_health, load_health_start, load_health_finish, all_operational,
  map_status, mapped, normalize_component, of_health, avg_uptime,
}

-- The five answers that the components come from are "ok".
abbrev pub AllOk : HealthAnswers → Type 0
AllOk a =
    (a.api.status ≡ codes "ok")
    × (a.cache.status ≡ codes "ok")
    × (a.ws.status ≡ codes "ok")
    × (a.governance.status ≡ codes "ok")
    × (a.db.status ≡ codes "ok")

-- After a load with answers, the page says that all systems are operational where the five
-- answers are "ok", and only there; and the uptime that it adds up is from 97.50 to 99.99 per
-- cent for each of the five.
pub load_health_finish-operational :
    (now : Text) (a : HealthAnswers) (p : SystemHealth)
    → let p' = load_health_finish now (answered a) p in
      (all_operational p' ≡ true → AllOk a)
      × (AllOk a → all_operational p' ≡ true)
      × (9750 * (avg_uptime p').1 ≤ (avg_uptime p').0)
      × ((avg_uptime p').0 ≤ 9999 * (avg_uptime p').1)
unfolding load_health_finish all_operational avg_uptime mapped of_health normalize_component
    map_status text_eq
load_health_finish-operational now a p = (
  λ h. (
    ground (arith, h, text_eq_iff a.api.status (codes "ok")),
    ground (arith, h, text_eq_iff a.cache.status (codes "ok")),
    ground (arith, h, text_eq_iff a.ws.status (codes "ok")),
    ground (arith, h, text_eq_iff a.governance.status (codes "ok")),
    ground (arith, h, text_eq_iff a.db.status (codes "ok")),
  ),
  λ h. rw (h.0, h.1, h.2, h.3, h.4) refl,
  ground arith,
  ground arith,
)

-- A load that fails, as where one of the systems does not answer, leaves the components of the
-- load before; where it is the first one, the page says beside its error that all systems are
-- operational.
pub load_health_finish-failed :
    (now : Text) (message : Option Value) (p : SystemHealth)
    → let fail =
        λ (q : SystemHealth). load_health_finish now (failed message) (load_health_start q) in
      ((fail p).components ≡ p.components)
      × (all_operational (fail first_health) ≡ true)
      × ((fail first_health).error
          ≡ some (error_text (codes "Unable to load system health") message))
unfolding load_health_finish load_health_start all_operational
load_health_finish-failed now message p = (refl, refl, refl)
