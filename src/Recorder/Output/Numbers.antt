-- ===== src/Recorder/Output/Numbers.antt =====
-- The numbers of the latency reports.
use matching_machine.Prelude.{
  ℕ, zero, suc, ◌+◌, ◌≡◌, refl, ◌≢◌, Option, some, List, [], ◌∷◌, arith, ◌==◌, if◌then◌else◌,
  Bool-cases, inl, inr,
}
use matching_machine.Recorder.Output.{
  put, find, seen_of, LatencyReport, or_quantity, latency_reports_from, latency_reports,
}

-- The numbers of a quantity's reports, in their order.
abbrev pub numbers_of : ℕ → List LatencyReport → List ℕ
numbers_of q [] = []
numbers_of q (r ∷ reports) =
    if r.quantity == q then r.repetition ∷ numbers_of q reports else numbers_of q reports

-- `n` numbers from `first` on.
abbrev pub up_from : ℕ → ℕ → List ℕ
up_from first zero = []
up_from first (suc n) = first ∷ up_from (suc first) n

pub find-put_self : (d : List (ℕ × ℕ)) (name v : ℕ) → find (put name v d) name ≡ some v
unfolding find put
find-put_self [] name v = ground arith
find-put_self ((n, w) ∷ d) name v = ground (arith, find-put_self d name v)

pub find-put_ne :
    (d : List (ℕ × ℕ)) (name other v : ℕ) → name ≢ other → find (put name v d) other ≡ find d other
unfolding find put
find-put_ne [] name other v h = ground arith
find-put_ne ((n, w) ∷ d) name other v h = ground (arith, find-put_ne d name other v h)

-- The reports of a quantity that were printed: the blocks in which labels were found.
abbrev pub printed : ℕ → ℕ → List (Option ℕ × List (ℕ × ℕ)) → ℕ
printed end_to_end q [] = 0
printed end_to_end q ((quantity, []) ∷ blocks) = printed end_to_end q blocks
printed end_to_end q ((quantity, _ ∷ _) ∷ blocks) =
    if or_quantity end_to_end quantity == q
    then suc (printed end_to_end q blocks)
    else printed end_to_end q blocks

numbers_of-from :
    (end_to_end : ℕ) (blocks : List (Option ℕ × List (ℕ × ℕ))) (seen : List (ℕ × ℕ)) (q : ℕ)
    → numbers_of q (latency_reports_from end_to_end blocks seen)
      ≡ up_from (seen_of seen q) (printed end_to_end q blocks)
unfolding latency_reports_from seen_of
numbers_of-from end_to_end [] seen q = refl
numbers_of-from end_to_end ((quantity, []) ∷ blocks) seen q =
    numbers_of-from end_to_end blocks seen q
numbers_of-from end_to_end ((quantity, f ∷ found) ∷ blocks) seen q =
    let r = or_quantity end_to_end quantity in
    let next = put r (seen_of seen r + 1) seen in
    let h = numbers_of-from end_to_end blocks next q in
    elim (Bool-cases (r == q)) [
      | inl e ↦ ground (arith, find-put_self seen r (seen_of seen r + 1))
      | inr e ↦ ground (arith, find-put_ne seen r q (seen_of seen r + 1))
    ]

-- The reports of each quantity are numbered 0, 1, 2, … in the order in which they were printed, up
-- to the number of those printed. A report with no quantity in its header counts as end-to-end.
pub latency_reports-numbers_of :
    (end_to_end : ℕ) (blocks : List (Option ℕ × List (ℕ × ℕ))) (q : ℕ)
    → numbers_of q (latency_reports end_to_end blocks) ≡ up_from 0 (printed end_to_end q blocks)
unfolding latency_reports seen_of find
latency_reports-numbers_of end_to_end blocks q = numbers_of-from end_to_end blocks [] q
