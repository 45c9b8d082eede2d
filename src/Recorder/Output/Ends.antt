-- ===== src/Recorder/Output/Ends.antt =====
-- Where the lines of each benchmark end, as the first loop of `intervals` finds it.
use matching_machine.Prelude.{
  ℕ, ◌+◌, ◌≡◌, refl, ◌∙◌, ap, subst, Bool, true, false, ◌&&◌, Option, none, some, List, [], ◌∷◌,
  arith, ◌==◌, if◌then◌else◌, length, Bool-cases, inl, inr,
}
use matching_machine.Recorder.Output.Numbers.{find-put_self, find-put_ne}
use matching_machine.Recorder.Output.{
  is_benchmark, put, find, Scan, note_name, scan_line, scan_lines, nothing_seen,
}

-- The offset behind the last line of a benchmark, among lines that start at an offset.
abbrev pub last_end : (List ℕ → ℕ) → ℕ → List (List ℕ) → ℕ → Option ℕ
last_end name_of offset [] name = none
last_end name_of offset (line ∷ lines) name =
    let behind = offset + length line + 1 in
    elim (last_end name_of behind lines name) [
      | none ↦ if is_benchmark line && name_of line == name then some behind else none
      | some e ↦ some e
    ]

-- The dictionary after the loop holds the ends of the lines, over what was in it before.
abbrev over : Option ℕ → Option ℕ → Option ℕ
over none before = before
over (some e) before = some e

scan_line-find :
    (b : Bool) (name offset : ℕ) (s : Scan) (wanted : ℕ)
    → find (scan_line b name offset s).last wanted
      ≡ (if b && name == wanted then some offset else find s.last wanted)
unfolding scan_line note_name
scan_line-find false name offset s wanted = refl
scan_line-find true name offset s wanted = elim (Bool-cases (name == wanted)) [
  | inl e ↦
      let q : name ≡ wanted = ground arith in
      rw e (
        subst (λ n. find (put name offset s.last) n ≡ some offset) q
          (find-put_self s.last name offset))
  | inr e ↦ rw e (find-put_ne s.last name wanted offset (ground arith))
]

scan_line-offset :
    (b : Bool) (name offset : ℕ) (s : Scan) → (scan_line b name offset s).offset ≡ offset
unfolding scan_line note_name
scan_line-offset true name offset s = refl
scan_line-offset false name offset s = refl

over-if :
    (rest : Option ℕ) (b : Bool) (behind : ℕ) (before : Option ℕ)
    → over rest (if b then some behind else before)
      ≡ over (elim rest [ none ↦ if b then some behind else none | some e ↦ some e ]) before
over-if none true behind before = refl
over-if none false behind before = refl
over-if (some e) b behind before = refl

scan_lines-find :
    (name_of : List ℕ → ℕ) (lines : List (List ℕ)) (s : Scan) (wanted : ℕ)
    → find (scan_lines name_of lines s).last wanted
      ≡ over (last_end name_of s.offset lines wanted) (find s.last wanted)
unfolding scan_lines
scan_lines-find name_of [] s wanted = refl
scan_lines-find name_of (line ∷ lines) s wanted =
    let behind = s.offset + length line + 1 in
    let b = is_benchmark line in
    let rest = last_end name_of behind lines wanted in
    scan_lines-find name_of lines (scan_line b (name_of line) behind s) wanted
    ∙ ap
        (λ at.
          over (last_end name_of at lines wanted)
            (find (scan_line b (name_of line) behind s).last wanted))
        (scan_line-offset b (name_of line) behind s)
    ∙ ap (over rest) (scan_line-find b (name_of line) behind s wanted)
    ∙ over-if rest (b && name_of line == wanted) behind (find s.last wanted)

over_none : (o : Option ℕ) → over o none ≡ o
over_none none = refl
over_none (some e) = refl

-- After the loop the dictionary has the end of each benchmark's last line.
pub scan_lines-last_end :
    (name_of : List ℕ → ℕ) (lines : List (List ℕ)) (name : ℕ)
    → find (scan_lines name_of lines nothing_seen).last name ≡ last_end name_of 0 lines name
unfolding find
scan_lines-last_end name_of lines name =
    scan_lines-find name_of lines nothing_seen name ∙ over_none (last_end name_of 0 lines name)
