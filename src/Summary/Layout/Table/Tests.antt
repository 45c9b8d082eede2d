-- ===== src/Summary/Layout/Table/Tests.antt =====
-- The rows of three layout logs, and the theorem on them.
use matching_machine.Effects.{ok}
use matching_machine.Effects.Checks.{Holds}
use matching_machine.Prelude.{ℕ, ◌%◌, ◌≡◌, refl, true, some, List, [], ◌∷◌, ◌+◌}
use matching_machine.Report.Floats.{nat_order, nat_arith}
use matching_machine.Report.Sort.{sorted}
use matching_machine.Summary.{Key, LaunchRow}
use matching_machine.Summary.Grouping.{group_all, add_to}
use matching_machine.Summary.Layout.{File, log, command, Reader, layout_observations}
use matching_machine.Summary.Layout.Table.{layout_rows}
use matching_machine.Summary.Layout.Table.Rows.{AreRowsOf, layout_rows-AreRows}

-- The launches of blocks 1 and 3 have condition 7, that of block 2 has 6.
abbrev launch_row : (block condition : ℕ) → LaunchRow
launch_row block condition = record {
  key = record { session = 1; block = block; condition = condition; binary = 4 };
  exit_status = 0;
}

abbrev launches : List LaunchRow
launches = launch_row 1 7 ∷ launch_row 2 6 ∷ launch_row 3 7 ∷ []

abbrev files : List File
files =
    record { stem = 1; kind = log; content = 130 }
    ∷ record { stem = 1; kind = command; content = 7 }
    ∷ record { stem = 2; kind = log; content = 130 }
    ∷ record { stem = 2; kind = command; content = 6 }
    ∷ record { stem = 3; kind = log; content = 64 }
    ∷ record { stem = 3; kind = command; content = 7 }
    ∷ []

-- A log's content is the address that it prints.
abbrev reader : Reader
reader = record {
  lines_of = λ n. record { address = some n; mod64 = some (n % 64); mod4096 = some n } ∷ [];
  metadata_of = λ n. record { complete = true; condition = n };
  identity_of = λ stem. some (1, stem);
}

abbrev medians : Key → List (ℕ × ℕ)
medians k = (9, 4000000) ∷ (5, 1000000 + k.block) ∷ []

abbrev by_number : ℕ → ℕ
by_number benchmark = benchmark

-- The launches of condition 7 are listed, by their residues.
layout_rows-files :
    layout_rows by_number medians reader launches files
    ≡ ok (
      record {
        condition = 6;
        binary = 4;
        layout_launches = 1;
        unique_addresses = 1;
        mod64_values = 2 ∷ [];
        unique_mod64 = 1;
        unique_mod4096 = 1;
        multi_mod64_launches = 0;
        multi_mod4096_launches = 0;
      }
          ∷ record {
            condition = 7;
            binary = 4;
            layout_launches = 2;
            unique_addresses = 2;
            mod64_values = 0 ∷ 2 ∷ [];
            unique_mod64 = 2;
            unique_mod4096 = 2;
            multi_mod64_launches = 0;
            multi_mod4096_launches = 0;
          }
          ∷ [],
      record {
        condition = 7;
        binary = 4;
        session = 1;
        block = 3;
        mod64 = 0 ∷ [];
        benchmark_ms = (5, 1) ∷ (9, 4) ∷ [];
      }
          ∷ record {
            condition = 7;
            binary = 4;
            session = 1;
            block = 1;
            mod64 = 2 ∷ [];
            benchmark_ms = (5, 1) ∷ (9, 4) ∷ [];
          }
          ∷ [],
    )
unfolding layout_rows layout_observations group_all add_to sorted
layout_rows-files = refl

layout_rows-AreRows_example :
    Holds
      (AreRowsOf by_number medians reader launches files)
      (layout_rows by_number medians reader launches files)
layout_rows-AreRows_example = layout_rows-AreRows by_number medians reader launches files
