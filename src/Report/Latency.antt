-- ===== src/Report/Latency.antt =====
-- `counted` and `latency_groups` of scripts/report/bench_report.py. The dictionary of dictionaries is
-- one from both keys together; names and labels are numbers.
pub mod Ticks
mod Tests
use matching_machine.Prelude.{
  ℕ, Bool, true, false, ◌&&◌, not, Option, none, some, List, [], ◌∷◌, ◌++◌, ◌==◌, if◌then◌else◌,
  select,
}

pub data Percentile : Type 0 where
  p50 p99 other_percentile : Percentile

-- The keys of `PIPELINES`, and any other binary.
pub data Binary : Type 0 where
  bench_matching_engine bench_baseline_mutex other_binary : Binary

pub data Pipeline : Type 0 where
  spsc_pipeline mutex_pipeline : Pipeline

-- A row of latency.csv. `quantity` is `none` where it is empty or not recorded, `warmup` where there is
-- no such column.
pub record Row : Type 0 where
  pub condition : ℕ
  pub binary : Binary
  pub quantity : Option ℕ
  pub percentile : Percentile
  pub session : ℕ
  pub round : ℕ
  pub warmup : Option ℕ
  pub ticks : ℕ

-- A group and a launch in it.
pub record GroupKey : Type 0 where
  pub condition : ℕ
  pub pipeline : Pipeline
  pub quantity : ℕ
  pub percentile : Percentile
  pub session : ℕ
  pub round : ℕ

abbrev pub same_percentile : Percentile → Percentile → Bool
same_percentile p50 p50 = true
same_percentile p99 p99 = true
same_percentile other_percentile other_percentile = true
same_percentile _ _ = false

abbrev pub same_pipeline : Pipeline → Pipeline → Bool
same_pipeline spsc_pipeline spsc_pipeline = true
same_pipeline mutex_pipeline mutex_pipeline = true
same_pipeline _ _ = false

abbrev pub same_group : GroupKey → GroupKey → Bool
same_group k l =
    k.condition == l.condition
    && same_pipeline k.pipeline l.pipeline
    && k.quantity == l.quantity
    && same_percentile k.percentile l.percentile
    && k.session == l.session
    && k.round == l.round

-- `not int(row.get("warmup") or 0)`
abbrev pub is_counted : Row → Bool
is_counted r = elim r.warmup [ none ↦ true | some n ↦ n == 0 ]

unfoldable pub counted : List Row → List Row
counted rows = select is_counted rows

abbrev pub is_reported : Percentile → Bool
is_reported p50 = true
is_reported p99 = true
is_reported other_percentile = false

-- `PIPELINES[binary]`; `none` is a `KeyError`.
abbrev pub pipeline_of : Binary → Option Pipeline
pipeline_of bench_matching_engine = some spsc_pipeline
pipeline_of bench_baseline_mutex = some mutex_pipeline
pipeline_of other_binary = none

abbrev pub Groups : Type 0
Groups = List (GroupKey × List ℕ)

-- `groups[key][launch].append(ticks)`
unfoldable pub add_ticks : GroupKey → ℕ → Groups → Groups
add_ticks k n [] = (k, n ∷ []) ∷ []
add_ticks k n ((l, ticks) ∷ groups) =
    if same_group l k then (l, ticks ++ n ∷ []) ∷ groups else (l, ticks) ∷ add_ticks k n groups

-- `end_to_end` is the quantity of a row that has none.
module _ (end_to_end : ℕ) where
  abbrev pub key_of : Row → Pipeline → GroupKey
  key_of r p = record {
    condition = r.condition;
    pipeline = p;
    quantity = elim r.quantity [ none ↦ end_to_end | some q ↦ q ];
    percentile = r.percentile;
    session = r.session;
    round = r.round;
  }

  -- The loop over the counted rows.
  unfoldable pub group_rows : List Row → Groups → Option Groups
  unfolding add_ticks
  group_rows [] groups = some groups
  group_rows (r ∷ rows) groups =
      if is_reported r.percentile
      then elim (pipeline_of r.binary) [
        | none ↦ none
        | some p ↦ group_rows rows (add_ticks (key_of r p) r.ticks groups)
      ]
      else group_rows rows groups

  unfoldable pub latency_groups : List Row → Option Groups
  unfolding counted group_rows
  latency_groups rows = group_rows (counted rows) []
