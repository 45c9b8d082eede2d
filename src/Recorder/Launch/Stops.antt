-- ===== src/Recorder/Launch/Stops.antt =====
-- How a launch ends, and what it leaves behind.
use matching_machine.Effects.{Result, ok, raise}
use mathlib.Core.List.{append-nil, append_assoc}
use matching_machine.Prelude.{
  length, ◌++◌, Bool-cases, inl, inr, ap, ◌∙◌, eq_nil_of_length, ℕ, ◌<◌, ◌≡◌, ◌≢◌, refl, sym, subst,
  Option, none, some, List, [], ◌∷◌, arith, ◌==◌, if◌then◌else◌,
}
use matching_machine.Recorder.Launch.{
  Polls, interrupted, silent, reads, reads_then, is_late, keep_read, Fault, Signal, Run, Launched,
  Failed, Step, signals, waited_for, closed_output, Kept, read_all, abandon_with, drain,
  nothing_kept, abandon, reap_with, reap, launch,
}
use matching_machine.Recorder.Launch.Kills.{Kills, kill_other}

-- The output that the polls bring until one of them is the last.
abbrev pub heard : Option ℕ → ℕ → Polls → List ℕ
heard timeout t0 (interrupted e) = []
heard timeout t0 (silent now mhz polls) =
    if is_late timeout t0 now then [] else heard timeout t0 polls
heard timeout t0 (reads now chunk cpu time waited polls) =
    let rest = heard timeout t0 polls in
    if is_late timeout t0 now then [] else (if length chunk == 0 then [] else chunk ++ rest)
heard timeout t0 (reads_then now chunk e) = if is_late timeout t0 now then [] else chunk

-- What was left in the pipe, up to the first empty read.
abbrev pub left_over : List (List ℕ) → List ℕ
left_over [] = []
left_over (chunk ∷ chunks) =
    let rest = left_over chunks in if length chunk == 0 then [] else chunk ++ rest

drain-left_over :
    (chunks : List (List ℕ)) (out : List ℕ) → drain chunks out ≡ out ++ left_over chunks
unfolding drain
drain-left_over [] out = sym (append-nil out)
drain-left_over (chunk ∷ chunks) out = elim (Bool-cases (length chunk == 0)) [
  | inl e ↦ rw e (sym (append-nil out))
  | inr e ↦ rw e (drain-left_over chunks (out ++ chunk) ∙ append_assoc out chunk (left_over chunks))
]

read_all-heard :
    (timeout : Option ℕ) (t0 : ℕ) (polls : Polls) (k : Kept)
    → (read_all timeout t0 polls k).0.out ≡ k.out ++ heard timeout t0 polls
unfolding read_all keep_read
read_all-heard timeout t0 (interrupted e) k = sym (append-nil k.out)
read_all-heard timeout t0 (silent now mhz polls) k = elim (Bool-cases (is_late timeout t0 now)) [
  | inl e ↦ rw e (sym (append-nil k.out))
  | inr e ↦ rw e (read_all-heard timeout t0 polls (record k { mhz = k.mhz ++ mhz }))
]
read_all-heard timeout t0 (reads now chunk cpu time waited polls) k =
    elim (Bool-cases (is_late timeout t0 now)) [
      | inl e ↦ rw e (sym (append-nil k.out))
      | inr e ↦ elim (Bool-cases (length chunk == 0)) [
        | inl q ↦ rw (e, q) (sym (append-nil k.out))
        | inr q ↦
            rw (e, q)
              (read_all-heard timeout t0 polls (keep_read chunk cpu time waited k)
                ∙ append_assoc k.out chunk (heard timeout t0 polls))
      ]
    ]
read_all-heard timeout t0 (reads_then now chunk e) k = elim (Bool-cases (is_late timeout t0 now)) [
  | inl l ↦ rw l (sym (append-nil k.out))
  | inr l ↦ elim (Bool-cases (length chunk == 0)) [
    | inl q ↦
        rw (l, q)
          (sym (append-nil k.out)
            ∙ ap (λ c. k.out ++ c) (sym (eq_nil_of_length chunk (ground arith))))
    | inr q ↦ rw (l, q) refl
  ]
]

-- How a launch ends that printed something.
abbrev pub Stops : Run → List ℕ → Result Failed Launched × List Step → Type 0
Stops r out (ok l, steps) = (steps ≡ waited_for r.pid ∷ closed_output ∷ []) × (l.output ≡ out)
Stops r out (raise f, steps) =
    (sent : List Signal) × (steps ≡ signals sent ∷ waited_for r.pid ∷ closed_output ∷ [])
    × Kills r.pid r.processes sent
    × (f.benchmark_output ≡ some (out ++ left_over r.left))

abandon-Stops :
    (r : Run) (out : List ℕ) (e : Fault)
    → 1 < r.pid
    → r.pid ≢ r.own_session
    → Stops r out (abandon r out e)
unfolding abandon abandon_with
abandon-Stops r out e h ne =
    let (sent, q, kills) = kill_other r.own_session r.pid r.processes h ne in
    subst (λ o. Stops r out (abandon_with r out e o)) (sym q)
      (sent, refl, kills, ap some (drain-left_over r.left out))

reaped-Stops :
    (r : Run) (k : Kept) (reaped : Result Fault ℕ)
    → 1 < r.pid
    → r.pid ≢ r.own_session
    → Stops r k.out (reap_with r k reaped)
unfolding reap_with
reaped-Stops r k (ok status) h ne = (refl, refl)
reaped-Stops r k (raise e) h ne = abandon-Stops r k.out e h ne

reap-Stops : (r : Run) (k : Kept) → 1 < r.pid → r.pid ≢ r.own_session → Stops r k.out (reap r k)
unfolding reap
reap-Stops r k h ne = reaped-Stops r k r.reaped h ne

end-Stops :
    (r : Run) (k : Kept) (stopped : Option Fault)
    → 1 < r.pid
    → r.pid ≢ r.own_session
    → Stops r k.out (elim stopped [ none ↦ reap r k | some e ↦ abandon r k.out e ])
end-Stops r k none h ne = reap-Stops r k h ne
end-Stops r k (some e) h ne = abandon-Stops r k.out e h ne

-- A launch with a session of its own is over when `launch` ends. If it succeeds, its process was
-- waited for, its output closed, and the output is all that its polls brought. If its loop or the wait
-- for it fails, its session was killed as `kill_launch_session` does, its process waited for, its
-- output closed, and the exception carries what its polls brought until then and what was left to
-- read.
pub launch-Stops :
    (timeout : Option ℕ) (r : Run)
    → 1 < r.pid
    → r.pid ≢ r.own_session
    → Stops r (heard timeout r.t0 r.polls) (launch timeout r)
unfolding launch
launch-Stops timeout r h ne =
    let (k, stopped) = read_all timeout r.t0 r.polls nothing_kept in
    subst (λ out. Stops r out (launch timeout r)) (read_all-heard timeout r.t0 r.polls nothing_kept)
      (end-Stops r k stopped h ne)
