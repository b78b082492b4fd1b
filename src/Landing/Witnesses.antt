-- ===== src/Landing/Witnesses.antt =====
-- The theorems on the landing page, applied to small inputs.
use trusyn_ai.Prelude.{suc, ◌+◌, ◌≤◌, ◌≡◌, codes, true, false, arith, length}
use trusyn_ai.Landing.Typewriter.{begin_typing, ticks, ticks-types}
use trusyn_ai.Landing.Feed.{mount_feed, feed_ticks, IsSound, feed_ticks-IsSound}
use trusyn_ai.Landing.Counter.{begin_counting, count_ticks, count_ticks-ends}
use trusyn_ai.Landing.Blink.{architecture_demo, governance_demo, IsPaced, demos-IsPaced}

ticks-types_test :
    ticks true (suc (length (codes "Send payroll"))) (codes "Send payroll") begin_typing ≡ record {
      displayed = codes "Send payroll";
      index = length (codes "Send payroll");
      running = false;
    }
ticks-types_test = ticks-types (codes "Send payroll")

feed_ticks-IsSound_example :
    IsSound (feed_ticks 3 (mount_feed 6)) × ((feed_ticks 3 (mount_feed 6)).total_events ≡ 247 + 3)
feed_ticks-IsSound_example = feed_ticks-IsSound 3 6 (omega arith)

count_ticks-ends_test :
    ((count_ticks 10 1400 40 begin_counting).count ≤ 10)
    × ((count_ticks 10 1400 88 begin_counting).running ≡ false)
    × ((count_ticks 10 1400 88 begin_counting).count ≡ 10)
count_ticks-ends_test = count_ticks-ends 10 1400 40 88 (omega arith) (omega arith)

demos-IsPaced_example :
    let a = architecture_demo 6000 in
    let g = governance_demo 6000 in
    IsPaced 5500 2800 a.active a.next a.timeouts × IsPaced 2800 900 g.active g.next g.timeouts
demos-IsPaced_example = demos-IsPaced 6000
