-- ===== src/Recorder/Launch/Marks.antt =====
-- The marks and the output of a launch.
use matching_machine.Effects.{Result, ok, raise}
use matching_machine.Prelude.{
  ℕ, ◌<◌, ◌≡◌, refl, false, Option, none, some, List, [], ◌∷◌, ◌++◌, arith, ◌==◌, length,
  length-append, Bool-cases, inl, inr,
}
use matching_machine.Recorder.Launch.{
  Mark, Fault, Polls, interrupted, silent, reads, reads_then, Kept, is_late, keep_read, read_all,
  Run, Launched, Failed, Step, start_mark, nothing_kept, abandon, abandon_with, reap_with, reap,
  launch,
}

-- The offsets of the marks grow from one number up to another.
abbrev pub Grow : ℕ → List Mark → ℕ → Type 0
Grow from [] to = from ≡ to
Grow from (m ∷ marks) to = (from < m.offset) × Grow m.offset marks to

Grow-snoc :
    (from : ℕ) (marks : List Mark) (to : ℕ) (m : Mark)
    → Grow from marks to
    → to < m.offset
    → Grow from (marks ++ m ∷ []) m.offset
Grow-snoc from [] to m g h = (ground arith, refl)
Grow-snoc from (n ∷ marks) to m g h = (g.0, Grow-snoc n.offset marks to m g.1 h)

abbrev IsMarked : Kept → Type 0
IsMarked k = Grow 0 k.marks (length k.out)

abbrev MarkedAtEnd : Kept × Option Fault → Type 0
MarkedAtEnd (k, none) = IsMarked k
MarkedAtEnd (k, some e) = Unit

keep_read-IsMarked :
    (chunk : List ℕ) (cpu : Option ℕ) (time waited : ℕ) (k : Kept)
    → (length chunk == 0) ≡ false
    → IsMarked k
    → IsMarked (keep_read chunk cpu time waited k)
unfolding keep_read
keep_read-IsMarked chunk cpu time waited k h g =
    Grow-snoc 0 k.marks (length k.out) _ g (ground (arith, length-append k.out chunk))

read_all-MarkedAtEnd :
    (timeout : Option ℕ) (t0 : ℕ) (polls : Polls) (k : Kept)
    → IsMarked k
    → MarkedAtEnd (read_all timeout t0 polls k)
unfolding read_all
read_all-MarkedAtEnd timeout t0 (interrupted e) k g = tt
read_all-MarkedAtEnd timeout t0 (silent now mhz polls) k g =
    elim (Bool-cases (is_late timeout t0 now)) [
      | inl p ↦ rw p tt
      | inr p ↦ rw p (read_all-MarkedAtEnd timeout t0 polls _ g)
    ]
read_all-MarkedAtEnd timeout t0 (reads now chunk cpu time waited polls) k g =
    elim (Bool-cases (is_late timeout t0 now)) [
      | inl p ↦ rw p tt
      | inr p ↦ elim (Bool-cases (length chunk == 0)) [
        | inl q ↦ rw (p, q) g
        | inr q ↦
            rw (p, q)
              (read_all-MarkedAtEnd timeout t0 polls _
                (keep_read-IsMarked chunk cpu time waited k q g))
      ]
    ]
read_all-MarkedAtEnd timeout t0 (reads_then now chunk e) k g = ground arith

-- The marks start at the start of the launch and each lies further on than the one before, the last
-- at the end of the output.
abbrev pub MarksCover : Run → Result Failed Launched × List Step → Type 0
MarksCover r (ok l, steps) =
    (marks : List Mark) × (l.marks ≡ start_mark r ∷ marks) × Grow 0 marks (length l.output)
MarksCover r (raise f, steps) = Unit

reap-MarksCover : (r : Run) (k : Kept) → IsMarked k → MarksCover r (reap r k)
unfolding reap reap_with abandon abandon_with
reap-MarksCover r k g = ground arith

end-MarksCover :
    (r : Run) (k : Kept) (stopped : Option Fault)
    → MarkedAtEnd (k, stopped)
    → MarksCover r (elim stopped [ none ↦ reap r k | some e ↦ abandon r k.out e ])
unfolding abandon abandon_with
end-MarksCover r k none g = reap-MarksCover r k g
end-MarksCover r k (some e) g = ground arith

-- Whatever a launch prints and however long it takes, a launch that succeeds has a first mark at
-- its start, every later mark lies further on in the output than the one before it, and the last
-- one lies at the end of the whole output.
pub launch-MarksCover : (timeout : Option ℕ) (r : Run) → MarksCover r (launch timeout r)
unfolding launch
launch-MarksCover timeout r =
    let (k, stopped) = read_all timeout r.t0 r.polls nothing_kept in
    end-MarksCover r k stopped (read_all-MarkedAtEnd timeout r.t0 r.polls nothing_kept refl)
