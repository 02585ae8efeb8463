-- ===== src/Monitor.antt =====
-- `EventLoopLagMonitor` of runtime/event_loop_monitor.py. A time is a number of ticks, and so is a lag;
-- the code counts a lag in milliseconds.
pub mod Recorded
pub mod Percentile
mod Tests
use langbot_plugin_sdk.Prelude.{
  ℕ, ◌+◌, ◌-◌, ◌*◌, ◌/◌, max, Bool, true, false, ◌||◌, Option, none, some, List, [], ◌∷◌, ◌++◌,
  length, ltb, leb, if◌then◌else◌, Result, ok, raise, ◌>>=◌, ◌>>◌, raise_if, ◌==◌, nat_eq, drop,
}
use langbot_plugin_sdk.Prelude.Deque.{last}

pub record Monitor : Type 0 where
  pub sample_interval : ℕ
  pub recent_sample_count : ℕ
  pub recent_lag : List ℕ
  pub samples_total : ℕ
  pub max_lag : ℕ
  pub last_lag : ℕ

pub data MonitorError : Type 0 where
  interval_not_positive sample_count_out_of_range : MonitorError

abbrev pub new : ℕ → ℕ → Monitor
new sample_interval recent_sample_count = record {
  sample_interval = sample_interval;
  recent_sample_count = recent_sample_count;
  recent_lag = [];
  samples_total = 0;
  max_lag = 0;
  last_lag = 0;
}

-- `__init__`
unfoldable pub init : ℕ → ℕ → Result MonitorError Monitor
init sample_interval recent_sample_count = do
  raise_if (sample_interval == 0) interval_not_positive
  raise_if (ltb recent_sample_count 2 || ltb 3600 recent_sample_count) sample_count_out_of_range
  ok (new sample_interval recent_sample_count)

unfoldable pub record_lag : Monitor → ℕ → Monitor
record_lag m lag = record m {
  last_lag = lag;
  max_lag = max m.max_lag lag;
  recent_lag = last m.recent_sample_count (m.recent_lag ++ (lag ∷ []));
  samples_total = m.samples_total + 1;
}

-- The rounds of `_run`, by the times at which they wake.
unfoldable pub run_samples : Monitor → ℕ → List ℕ → Monitor
unfolding record_lag
run_samples m expected_at [] = m
run_samples m expected_at (observed_at ∷ times) =
    run_samples (record_lag m (observed_at - expected_at)) (observed_at + m.sample_interval) times

-- `sorted`
unfoldable pub insert : ℕ → List ℕ → List ℕ
insert x [] = x ∷ []
insert x (y ∷ ys) = let rest = insert x ys in if leb x y then x ∷ y ∷ ys else y ∷ rest

unfoldable pub sorted : List ℕ → List ℕ
unfolding insert
sorted [] = []
sorted (x ∷ xs) = insert x (sorted xs)

abbrev pub first_or : List ℕ → ℕ
first_or [] = 0
first_or (x ∷ xs) = x

-- `math.ceil(count * 0.95) - 1`
abbrev pub p95_index : ℕ → ℕ
p95_index count = (95 * count + 99) / 100 - 1

pub record Snapshot : Type 0 where
  pub samples_total : ℕ
  pub last_lag : ℕ
  pub recent_p95_lag : ℕ
  pub recent_max_lag : ℕ
  pub max_lag : ℕ

unfoldable pub snapshot : Monitor → Snapshot
unfolding sorted
snapshot m =
    let recent = sorted m.recent_lag in
    record {
      samples_total = m.samples_total;
      last_lag = m.last_lag;
      recent_p95_lag = first_or (drop (p95_index (length recent)) recent);
      recent_max_lag = first_or (drop (length recent - 1) recent);
      max_lag = m.max_lag;
    }
