-- ===== src/Monitor/Tests.antt =====
-- Runs of the model of runtime/event_loop_monitor.py at concrete inputs.
use langbot_plugin_sdk.Prelude.{
  ◌*◌, ◌≤◌, ◌≡◌, refl, List, [], ◌∷◌, length, count, leb, arith, raise, ℕ,
}
use langbot_plugin_sdk.Prelude.Deque.{last}
use langbot_plugin_sdk.Monitor.{
  Monitor, sample_count_out_of_range, new, init, record_lag, run_samples, insert, sorted, snapshot,
}
use langbot_plugin_sdk.Monitor.Recorded.{lags, maximum, recorded}
use langbot_plugin_sdk.Monitor.Percentile.{percentile}

program : Unit {0}
unfolding init record_lag run_samples insert sorted snapshot
program = tt

-- Rounds are expected 10 ticks after the last one; three lags of 3, 0 and 7.
abbrev times : List ℕ
times = 13 ∷ 23 ∷ 40 ∷ []

abbrev after : Monitor
after = run_samples (new 10 2) 10 times

after_lags : after.recent_lag ≡ 0 ∷ 7 ∷ []
unfolding program
after_lags = refl

recorded_example :
    (after.recent_lag ≡ last 2 (lags 10 10 times))
    × (after.samples_total ≡ length times)
    × (after.max_lag ≡ maximum (lags 10 10 times))
recorded_example = recorded 10 2 10 times

percentile_example :
    95 * length after.recent_lag
    ≤ 100 * count (λ lag. leb lag (snapshot after).recent_p95_lag) after.recent_lag
unfolding program
percentile_example = percentile after (omega arith)

reported : ((snapshot after).recent_p95_lag ≡ 7) × ((snapshot after).recent_max_lag ≡ 7)
unfolding program
reported = (refl, refl)

one_sample : init 10 1 ≡ raise sample_count_out_of_range
unfolding program
one_sample = refl
