-- ===== src/Report/Latency/Tests.antt =====
-- The latency of one launch of each pipeline, and the theorem on it.
use matching_machine.Prelude.{ℕ, ◌≡◌, refl, none, some, List, [], ◌∷◌}
use matching_machine.Report.Latency.{
  Percentile, p50, other_percentile, Binary, bench_matching_engine, bench_baseline_mutex,
  spsc_pipeline, mutex_pipeline, Row, latency_groups,
}
use matching_machine.Report.Latency.Ticks.{Grouped, latency_groups-Grouped}

abbrev row : Binary → Percentile → (warmup : ℕ) → (ticks : ℕ) → Row
row b p w n = record {
  condition = 1;
  binary = b;
  quantity = none;
  percentile = p;
  session = 1;
  round = 2;
  warmup = some w;
  ticks = n;
}

-- A warm-up and a percentile that is not reported are left out.
abbrev rows : List Row
rows =
    row bench_matching_engine p50 1 900
    ∷ row bench_matching_engine p50 0 500
    ∷ row bench_baseline_mutex p50 0 700
    ∷ row bench_matching_engine other_percentile 0 800
    ∷ row bench_matching_engine p50 0 510
    ∷ []

latency_groups-rows :
    latency_groups 9 rows
    ≡ some (
        (
          record {
            condition = 1;
            pipeline = spsc_pipeline;
            quantity = 9;
            percentile = p50;
            session = 1;
            round = 2;
          },
          500 ∷ 510 ∷ [],
        )
        ∷ (
          record {
            condition = 1;
            pipeline = mutex_pipeline;
            quantity = 9;
            percentile = p50;
            session = 1;
            round = 2;
          },
          700 ∷ [],
        )
        ∷ [])
unfolding latency_groups
latency_groups-rows = refl

latency_groups-Grouped_example : Grouped 9 [] rows (latency_groups 9 rows)
latency_groups-Grouped_example = latency_groups-Grouped 9 rows
