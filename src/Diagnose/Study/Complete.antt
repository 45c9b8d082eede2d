-- ===== src/Diagnose/Study/Complete.antt =====
-- A study that is marked complete holds, block by block, a launch of every condition, and no study is
-- marked complete otherwise.
use mathlib.Core.List.{append-nil, append_assoc}
use matching_machine.Effects.{
  Result, ok, raise, Ends, Keeps, Ensures, Ensures-bind, Ensures-of_Keeps, Ensures-finish,
  Ensures-around, Keeps-get,
}
use matching_machine.Prelude.{
  ℕ, zero, suc, ◌+◌, ◌*◌, ◌≡◌, ◌∙◌, refl, sym, subst, true, false, List, [], ◌∷◌, ◌++◌, arith,
}
use matching_machine.Recorder.Schedule.{block_order, rotation, block_index}
use matching_machine.Diagnose.Study.Blocks.{count-rotation, AreBlocks, AreBlocks-append}
use matching_machine.Diagnose.Study.{
  Stop, Answer, set_up, find_cores, mark_complete, archive, World, Options, Study, Do, emit,
  capture_env, clear, one, run_conditions, run_blocks, leave, enter, warm_up, measure, body, begin,
  session, run_sessions, run_study, new_study, checkpointed,
}

module _ {C : Type 0} where
  -- These launches are recorded, in a study that is not marked complete.
  abbrev Holds : List C → Study C → Type 0
  Holds xs s = (s.complete ≡ false) × (s.launches ≡ xs)

  abbrev Unmarked : Study C → Type 0
  Unmarked s = s.complete ≡ false

module _ {C : Type 0} (world : World C) (o : Options C) where
  capture_env-Holds : (xs : List C) → Keeps (Holds xs) (capture_env world o)
  unfolding capture_env
  capture_env-Holds xs = record { apply = λ s h. ground arith }

  clear-Holds : (xs : List C) (measure : List ℕ) → Keeps (Holds xs) (clear world o measure)
  unfolding clear
  clear-Holds xs measure = record { apply = λ s h. ground arith }

  set_up-Holds : (xs : List C) (a : Answer) → Keeps (Holds xs) (set_up world o a)
  set_up-Holds xs a = record { apply = λ s h. ground arith }

  find_cores-Holds : (xs : List C) → Keeps (Holds xs) (find_cores world o)
  unfolding find_cores
  find_cores-Holds xs = record { apply = λ s h. ground arith }

  warm_up-Holds : (xs : List C) → Keeps (Holds xs) (warm_up world o)
  unfolding warm_up
  warm_up-Holds xs = record { apply = λ s h. ground arith }

  begin-Holds : (xs : List C) → Keeps (Holds xs) (begin world o)
  unfolding begin
  begin-Holds xs = record { apply = λ s h. ground arith }

  leave-Holds : (xs : List C) → Keeps (Holds xs) (leave world o)
  unfolding leave
  leave-Holds xs = record { apply = λ s h. ground arith }

  one-Holds :
      (xs : List C) (c : C) → Ensures (Holds xs) (Holds (xs ++ c ∷ [])) Unmarked (one world o c)
  unfolding one
  one-Holds xs c = record { apply = λ s h. ground arith }

  checkpoint-Holds : (xs : List C) → Keeps {E = Stop} (Holds xs) (emit {C = C} checkpointed)
  checkpoint-Holds xs = record { apply = λ s h. h }

  keep :
      (xs : List C) {A : Type 0} {m : Do C A}
      → Keeps (Holds xs) m
      → Ensures (Holds xs) (Holds xs) Unmarked m
  keep xs k = Ensures-of_Keeps (λ s h. h.0) k

  shift :
      (xs ys zs : List C) {A : Type 0} {m : Do C A}
      → ys ≡ zs
      → Ensures (Holds xs) (Holds ys) Unmarked m
      → Ensures (Holds xs) (Holds zs) Unmarked m
  shift xs ys zs e h = rw (← e) h

  leave-Unmarked : Keeps Unmarked (leave world o)
  unfolding leave
  leave-Unmarked = record { apply = λ s h. ground arith }

  capture_env-Unmarked : Keeps Unmarked (capture_env world o)
  unfolding capture_env
  capture_env-Unmarked = record { apply = λ s h. ground arith }

  run_conditions-Holds :
      (xs : List C) (cores : List ℕ) (order : List C)
      → Ensures (Holds xs) (Holds (xs ++ order)) Unmarked (run_conditions world o cores order)
  unfolding run_conditions
  run_conditions-Holds xs cores [] = record { apply = λ s h. (h.0, h.1 ∙ sym (append-nil xs)) }
  run_conditions-Holds xs cores (c ∷ order) = Ensures-bind (keep xs (clear-Holds xs cores)) λ _.
      Ensures-bind (one-Holds xs c) λ _.
        shift (xs ++ (c ∷ [])) ((xs ++ (c ∷ [])) ++ order) (xs ++ (c ∷ order))
          (append_assoc xs (c ∷ []) order) (run_conditions-Holds (xs ++ c ∷ []) cores order)

  -- The launches of the blocks that are left, and of the sessions that are left.
  abbrev blocks_from : (number block left : ℕ) → List C
  blocks_from number block zero = []
  blocks_from number block (suc left) =
      rotation o.matrix (block_index o.blocks number block) ++ blocks_from number (block + 1) left

  abbrev sessions_from : (number left : ℕ) → List C
  sessions_from number zero = []
  sessions_from number (suc left) = blocks_from number 1 o.blocks ++ sessions_from (number + 1) left

  run_blocks-Holds :
      (xs : List C) (cores : List ℕ) (number block left : ℕ)
      → Ensures
          (Holds xs)
          (Holds (xs ++ blocks_from number block left))
          Unmarked
          (run_blocks world o cores number block left)
  unfolding run_blocks block_order
  run_blocks-Holds xs cores number block zero = record {
    apply = λ s h. (h.0, h.1 ∙ sym (append-nil xs));
  }
  run_blocks-Holds xs cores number block (suc left) =
      let order = rotation o.matrix (block_index o.blocks number block) in
      let rest = blocks_from number (block + 1) left in
      Ensures-bind (run_conditions-Holds xs cores order) λ _.
        shift (xs ++ order) ((xs ++ order) ++ rest) (xs ++ (order ++ rest))
          (append_assoc xs order rest)
          (run_blocks-Holds (xs ++ order) cores number (block + 1) left)

  session-Holds :
      (xs : List C) (number : ℕ)
      → Ensures
          (Holds xs)
          (Holds (xs ++ blocks_from number 1 o.blocks))
          Unmarked
          (session world o number)
  unfolding session body enter measure
  session-Holds xs number =
      let full = xs ++ blocks_from number 1 o.blocks in
      Ensures-bind (keep xs (begin-Holds xs)) λ _.
        Ensures-around (λ s h. h.0) (leave-Holds full) leave-Unmarked
          (Ensures-bind
            (Ensures-bind (keep xs Keeps-get) λ s.
              Ensures-bind (keep xs (set_up-Holds xs (world.setup s.trace)))
                (λ _. keep xs (find_cores-Holds xs)))
            λ cores. Ensures-bind (keep xs (capture_env-Holds xs)) λ _.
              Ensures-around (λ s h. h.0) (capture_env-Holds full) capture_env-Unmarked
                (Ensures-bind (keep xs (checkpoint-Holds xs)) λ _.
                  Ensures-bind (keep xs (warm_up-Holds xs))
                    (λ _. run_blocks-Holds xs cores number 1 o.blocks)))

  run_sessions-Holds :
      (xs : List C) (number left : ℕ)
      → Ensures
          (Holds xs)
          (Holds (xs ++ sessions_from number left))
          Unmarked
          (run_sessions world o number left)
  unfolding run_sessions
  run_sessions-Holds xs number zero = record { apply = λ s h. (h.0, h.1 ∙ sym (append-nil xs)) }
  run_sessions-Holds xs number (suc left) =
      let blocks = blocks_from number 1 o.blocks in
      let rest = sessions_from (number + 1) left in
      Ensures-bind (session-Holds xs number) λ _.
        shift (xs ++ blocks) ((xs ++ blocks) ++ rest) (xs ++ (blocks ++ rest))
          (append_assoc xs blocks rest) (run_sessions-Holds (xs ++ blocks) (number + 1) left)

  blocks_from-AreBlocks :
      (number block left : ℕ) → AreBlocks o.matrix left (blocks_from number block left)
  blocks_from-AreBlocks number block zero = refl
  blocks_from-AreBlocks number block (suc left) = (
    _,
    blocks_from number (block + 1) left,
    refl,
    λ p. count-rotation p o.matrix (block_index o.blocks number block),
    blocks_from-AreBlocks number (block + 1) left,
  )

  sessions_from-AreBlocks :
      (number left : ℕ) → AreBlocks o.matrix (left * o.blocks) (sessions_from number left)
  sessions_from-AreBlocks number zero =
      let e : 0 ≡ 0 * o.blocks = omega arith in subst (λ n. AreBlocks o.matrix n []) e refl
  sessions_from-AreBlocks number (suc left) =
      let e : o.blocks + left * o.blocks ≡ suc left * o.blocks = omega arith in
      subst (λ n. AreBlocks o.matrix n (sessions_from number (suc left))) e
        (AreBlocks-append o.matrix o.blocks (left * o.blocks) (blocks_from number 1 o.blocks)
          (sessions_from (number + 1) left) (blocks_from-AreBlocks number 1 o.blocks)
          (sessions_from-AreBlocks (number + 1) left))

  -- How a study ends: not marked complete, or with all of its launches.
  abbrev IsFull : Study C → Type 0
  IsFull s = s.launches ≡ sessions_from 1 o.sessions

  mark_complete-IsFull :
      Ensures {E = Stop}
        (Holds ([] ++ sessions_from 1 o.sessions))
        IsFull
        Unmarked
        (mark_complete world o)
  unfolding mark_complete
  mark_complete-IsFull = record { apply = λ s h. h.1 }

  archive-IsFull : Keeps {E = Stop} IsFull (archive world o)
  unfolding archive
  archive-IsFull = record { apply = λ s h. h }

  archive-Unmarked : Keeps {E = Stop} Unmarked (archive world o)
  unfolding archive
  archive-Unmarked = record { apply = λ s h. h }

  archive_total : (s : Study C) → (archive world o s).0 ≡ ok tt
  unfolding archive
  archive_total s = refl

  run_study-IsFull : Ensures (Holds []) IsFull Unmarked (run_study world o)
  unfolding run_study
  run_study-IsFull =
      Ensures-finish archive_total archive-IsFull archive-Unmarked
        (Ensures-bind (run_sessions-Holds [] 1 o.sessions) (λ _. mark_complete-IsFull))

  IsFull-of_end :
      (r : Result Stop (Unit {0})) (s : Study C)
      → Ends IsFull Unmarked r s
      → s.complete ≡ true
      → IsFull s
  IsFull-of_end (ok a) s h e = h
  IsFull-of_end (raise f) s h e = cc

  -- If a diagnostic study is marked complete, its launches are those of one block after the other, as
  -- many as there are sessions times blocks, and each block holds every condition of the matrix, as
  -- often as the matrix does, and no other.
  pub run_study-complete :
      (run_study world o new_study).1.complete ≡ true
      → AreBlocks o.matrix (o.sessions * o.blocks) (run_study world o new_study).1.launches
  run_study-complete e =
      let full =
        IsFull-of_end (run_study world o new_study).0 (run_study world o new_study).1
          (run_study-IsFull.apply new_study (refl, refl)) e in
      subst (AreBlocks o.matrix (o.sessions * o.blocks)) (sym full)
        (sessions_from-AreBlocks 1 o.sessions)
