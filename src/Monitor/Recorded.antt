-- ===== src/Monitor/Recorded.antt =====
-- What the monitor of runtime/event_loop_monitor.py knows of the lags.
use mathlib.Core.List.{append-nil, append_assoc}
use langbot_plugin_sdk.Prelude.{
  ℕ, ◌+◌, ◌-◌, max, ◌≡◌, sym, ap, ◌∙◌, List, [], ◌∷◌, ◌++◌, length, count, arith,
}
use langbot_plugin_sdk.Prelude.Deque.{last, drop-nil, last-last-snoc}
use langbot_plugin_sdk.Monitor.{Monitor, new, record_lag, run_samples}

-- The lags of the rounds.
unfoldable pub lags : ℕ → ℕ → List ℕ → List ℕ
lags interval expected_at [] = []
lags interval expected_at (observed_at ∷ times) =
    (observed_at - expected_at) ∷ lags interval (observed_at + interval) times

unfoldable pub maximum : List ℕ → ℕ
maximum [] = 0
maximum (x ∷ xs) = max x (maximum xs)

run_samples-recent :
    (m : Monitor) (older : List ℕ) (expected_at : ℕ) (times : List ℕ)
    → m.recent_lag ≡ last m.recent_sample_count older
    → (run_samples m expected_at times).recent_lag
      ≡ last m.recent_sample_count (older ++ lags m.sample_interval expected_at times)
unfolding run_samples record_lag lags
run_samples-recent m older expected_at [] h = rw append-nil h
run_samples-recent m older expected_at (observed_at ∷ times) h =
    let lag = observed_at - expected_at in
    let now : (record_lag m lag).recent_lag ≡ last m.recent_sample_count (older ++ lag ∷ []) =
      ap (λ es. last m.recent_sample_count (es ++ lag ∷ [])) h
      ∙ last-last-snoc m.recent_sample_count older lag in
    let ih =
      run_samples-recent (record_lag m lag) (older ++ lag ∷ []) (observed_at + m.sample_interval)
        times now in
    ih
    ∙ ap (last m.recent_sample_count) (
        append_assoc older (lag ∷ [])
          (lags m.sample_interval (observed_at + m.sample_interval) times))

run_samples-counts :
    (m : Monitor) (expected_at : ℕ) (times : List ℕ)
    → ((run_samples m expected_at times).samples_total ≡ m.samples_total + length times)
      × ((run_samples m expected_at times).max_lag
          ≡ max m.max_lag (maximum (lags m.sample_interval expected_at times)))
unfolding run_samples record_lag lags maximum
run_samples-counts m expected_at [] = (omega arith, omega arith)
run_samples-counts m expected_at (observed_at ∷ times) =
    let (total, most) =
      run_samples-counts (record_lag m (observed_at - expected_at))
        (observed_at + m.sample_interval) times in
    (omega arith, omega arith)

-- After any rounds a monitor that was just made holds exactly the last `recent_sample_count` lags, the
-- number of all rounds, and the greatest lag of all of them.
pub recorded :
    (sample_interval recent_sample_count expected_at : ℕ) (times : List ℕ)
    → let m = run_samples (new sample_interval recent_sample_count) expected_at times in
      (m.recent_lag ≡ last recent_sample_count (lags sample_interval expected_at times))
      × (m.samples_total ≡ length times)
      × (m.max_lag ≡ maximum (lags sample_interval expected_at times))
recorded interval count expected_at times =
    let m = new interval count in
    let recent = run_samples-recent m [] expected_at times (sym (drop-nil (0 - count))) in
    let (total, most) = run_samples-counts m expected_at times in (recent, omega arith, omega arith)
