-- ===== src/Landing/Feed.antt =====
-- The live feed of frontend/landing-page/src/app/components/DashboardSection.tsx
use trusyn_ai.Prelude.{
  ℕ, zero, suc, ◌+◌, ◌≤◌, ◌≡◌, ◌≢◌, String, List, [], ◌∷◌, ◌%◌, length, take, arith, length-take,
}

pub data EventStatus : Type 0 where
  blocked flagged allowed : EventStatus

pub record FeedEvent : Type 0 where
  pub id : ℕ
  pub status : EventStatus
  pub desc : String
  pub agent : String
  pub time : String

-- an event without its id and its time
abbrev pub Incoming : Type 0
Incoming = EventStatus × String × String

abbrev pub event_of : ℕ → String → Incoming → FeedEvent
event_of id time (status, desc, agent) = record {
  id = id;
  status = status;
  desc = desc;
  agent = agent;
  time = time;
}

abbrev pub initial_feed : List FeedEvent
initial_feed =
    event_of 1 "just now" (blocked, "Data exfiltration attempt detected", "HR-Assistant")
    ∷ event_of 2 "45s ago" (flagged, "Unusual permission escalation pattern", "Finance-Bot")
    ∷ event_of 3 "1m ago" (allowed, "Q1 compliance report generation", "Analytics-Agent")
    ∷ event_of 4 "2m ago" (blocked, "Prompt injection attack intercepted", "Customer-Bot")
    ∷ event_of 5 "3m ago" (allowed, "Internal policy document lookup", "HR-Assistant")
    ∷ []

-- `INCOMING[i]`, for an index below 6
unfoldable pub incoming : ℕ → Incoming
incoming zero = (blocked, "Unauthorized external API call with PII payload", "Finance-Bot")
incoming (suc zero) = (flagged, "Sensitive query outside agent permissions", "Analytics-Agent")
incoming (suc (suc zero)) = (blocked, "Credential harvesting attempt blocked", "HR-Assistant")
incoming (suc (suc (suc zero))) =
    (allowed, "Scheduled compliance summary report sent", "Customer-Bot")
incoming (suc (suc (suc (suc zero)))) =
    (blocked, "Mass employee records download denied", "Finance-Bot")
incoming _ = (flagged, "Unusual query frequency anomaly detected", "Analytics-Agent")

-- `evt_counter` is of the module, so it outlives the section.
pub record LiveFeed : Type 0 where
  pub feed_events : List FeedEvent
  pub total_events : ℕ
  pub blocked_count : ℕ
  pub incoming_idx : ℕ
  pub evt_counter : ℕ

-- the section as it is mounted, with the counter of the module
abbrev pub mount_feed : ℕ → LiveFeed
mount_feed counter = record {
  feed_events = initial_feed;
  total_events = 247;
  blocked_count = 12;
  incoming_idx = 0;
  evt_counter = counter;
}

abbrev pub count_blocked : EventStatus → ℕ → ℕ
count_blocked blocked n = n + 1
count_blocked _ n = n

-- the callback of the interval
unfoldable pub feed_tick : LiveFeed → LiveFeed
unfolding incoming
feed_tick f =
    let next = incoming (f.incoming_idx % 6) in
    record {
      feed_events = take 6 (event_of (f.evt_counter + 1) "just now" next ∷ f.feed_events);
      total_events = f.total_events + 1;
      blocked_count = count_blocked next.0 f.blocked_count;
      incoming_idx = f.incoming_idx + 1;
      evt_counter = f.evt_counter + 1;
    }

unfoldable pub feed_ticks : ℕ → LiveFeed → LiveFeed
unfolding feed_tick
feed_ticks zero f = f
feed_ticks (suc n) f = feed_tick (feed_ticks n f)

-- the ids of a list are at most a number, all differ from an id, and differ from each other
abbrev pub AllBelow : ℕ → List FeedEvent → Type 0
AllBelow n [] = Unit
AllBelow n (e ∷ es) = (e.id ≤ n) × AllBelow n es

abbrev pub AllOther : ℕ → List FeedEvent → Type 0
AllOther id [] = Unit
AllOther id (e ∷ es) = (id ≢ e.id) × AllOther id es

abbrev pub AreDistinct : List FeedEvent → Type 0
AreDistinct [] = Unit
AreDistinct (e ∷ es) = AllOther e.id es × AreDistinct es

AllBelow-suc : (n : ℕ) (es : List FeedEvent) → AllBelow n es → AllBelow (n + 1) es
AllBelow-suc n [] h = tt
AllBelow-suc n (e ∷ es) h = (omega (arith, h.0), AllBelow-suc n es h.1)

AllOther-suc : (n : ℕ) (es : List FeedEvent) → AllBelow n es → AllOther (n + 1) es
AllOther-suc n [] h = tt
AllOther-suc n (e ∷ es) h = (omega (arith, h.0), AllOther-suc n es h.1)

AllBelow-take : (k n : ℕ) (es : List FeedEvent) → AllBelow n es → AllBelow n (take k es)
AllBelow-take zero n es h = tt
AllBelow-take (suc k) n [] h = tt
AllBelow-take (suc k) n (e ∷ es) h = (h.0, AllBelow-take k n es h.1)

AllOther-take : (k id : ℕ) (es : List FeedEvent) → AllOther id es → AllOther id (take k es)
AllOther-take zero id es h = tt
AllOther-take (suc k) id [] h = tt
AllOther-take (suc k) id (e ∷ es) h = (h.0, AllOther-take k id es h.1)

AreDistinct-take : (k : ℕ) (es : List FeedEvent) → AreDistinct es → AreDistinct (take k es)
AreDistinct-take zero es h = tt
AreDistinct-take (suc k) [] h = tt
AreDistinct-take (suc k) (e ∷ es) h = (AllOther-take k e.id es h.0, AreDistinct-take k es h.1)

-- What the feed keeps to: at most six events with different ids, which are the keys of the rows,
-- and no more blocked events than events.
pub record IsSound (f : LiveFeed) : Type 0 where
  pub few : length f.feed_events ≤ 6
  pub below : AllBelow f.evt_counter f.feed_events
  pub distinct : AreDistinct f.feed_events
  pub counts : f.blocked_count ≤ f.total_events

count_blocked_le : (status : EventStatus) (n : ℕ) → count_blocked status n ≤ n + 1
count_blocked_le blocked n = omega arith
count_blocked_le flagged n = omega arith
count_blocked_le allowed n = omega arith

feed_tick-IsSound : (f : LiveFeed) → IsSound f → IsSound (feed_tick f)
unfolding feed_tick
feed_tick-IsSound f h =
    let next = incoming (f.incoming_idx % 6) in
    record {
      few = length-take 6 (event_of (f.evt_counter + 1) "just now" next ∷ f.feed_events);
      below = (
        omega arith,
        AllBelow-take 5 (f.evt_counter + 1) f.feed_events
            (AllBelow-suc f.evt_counter f.feed_events h.below),
      );
      distinct = (
        AllOther-take 5 (f.evt_counter + 1) f.feed_events
            (AllOther-suc f.evt_counter f.feed_events h.below),
        AreDistinct-take 5 f.feed_events h.distinct,
      );
      counts = omega (arith, h.counts, count_blocked_le next.0 f.blocked_count);
    }

mount_feed-IsSound : (counter : ℕ) → 6 ≤ counter → IsSound (mount_feed counter)
mount_feed-IsSound counter h = record {
  few = omega arith;
  below = (
    omega (arith, h),
    (omega (arith, h), (omega (arith, h), (omega (arith, h), (omega (arith, h), tt)))),
  );
  distinct = ground arith;
  counts = omega arith;
}

-- After any number of ticks, whenever the section is mounted with a counter that is at least 6, the
-- feed has at most six events with different ids, the blocked events are no more than all, and
-- each tick has counted one event.
pub feed_ticks-IsSound :
    (n counter : ℕ)
    → 6 ≤ counter
    → IsSound (feed_ticks n (mount_feed counter))
      × ((feed_ticks n (mount_feed counter)).total_events ≡ 247 + n)
unfolding feed_ticks feed_tick
feed_ticks-IsSound zero counter h = (mount_feed-IsSound counter h, omega arith)
feed_ticks-IsSound (suc n) counter h =
    let (sound, total) = feed_ticks-IsSound n counter h in
    (feed_tick-IsSound (feed_ticks n (mount_feed counter)) sound, omega (arith, total))
