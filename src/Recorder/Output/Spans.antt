-- ===== src/Recorder/Output/Spans.antt =====
-- The spans of the benchmarks of a launch.
use matching_machine.Prelude.{
  ℕ, ◌+◌, ◌≤◌, ◌<◌, ◌≡◌, refl, sym, min, Option, Bool, true, false, some, List, [], ◌∷◌, ◌++◌, map,
  ◌∙◌, subst, ap, All-map, All-append, arith, ◌==◌, leb, if◌then◌else◌, length, contains, All,
  Bool-cases, inl, inr, ◌⊎◌,
}
use matching_machine.Prelude.Int.{pos, ◌-ℤ◌}
use matching_machine.Recorder.Launch.{Mark}
use matching_machine.Recorder.Output.Ends.{last_end, scan_lines-last_end}
use matching_machine.Recorder.Output.Numbers.{find-put_self, find-put_ne}
use matching_machine.Recorder.Output.{
  is_benchmark, put, find, Scan, note_name, scan_line, scan_lines, first_from, final, Row, mark_at,
  row, rows_of, intervals, split_lines, nothing_seen,
}

-- The first mark at an offset or behind it; all before it are in front.
abbrev pub IsFirst : ℕ → Mark → List Mark → Type 0
IsFirst bound e [] = ⊥
IsFirst bound e (m ∷ marks) =
    ((bound ≤ m.offset) × (e ≡ m)) ⊎ ((m.offset < bound) × IsFirst bound e marks)

module _ (m : Mark) (marks : List Mark) (ends : ℕ → Option ℕ) where
  -- Each row goes from the mark of the one before to the first mark at the end of its benchmark's
  -- lines, or at the offset of the last mark where that comes before.
  abbrev pub Spans : Mark → List Row → Type 0
  Spans prev [] = Unit
  Spans prev (r ∷ rows) =
      (offset : ℕ) × (e : Mark) × (ends r.name ≡ some offset)
      × IsFirst (min offset (final m marks).offset) e (m ∷ marks)
      × (r.wall ≡ pos e.time -ℤ pos prev.time)
      × (r.cpu ≡ pos e.cpu -ℤ pos prev.cpu)
      × (r.waited ≡ pos e.waited -ℤ pos prev.waited)
      × Spans e rows

abbrev pub add_name : List ℕ → ℕ → List ℕ
add_name names name = if contains names name then names else names ++ name ∷ []

-- The names that the benchmarks' lines give, each once, in the order of their first lines.
abbrev pub names_in : (List ℕ → ℕ) → List (List ℕ) → List ℕ → List ℕ
names_in name_of [] names = names
names_in name_of (line ∷ lines) names =
    names_in name_of lines (if is_benchmark line then add_name names (name_of line) else names)

IsFirst-if :
    (b : Bool) (bound : ℕ) (m x : Mark) (marks : List Mark)
    → leb bound m.offset ≡ b
    → IsFirst bound x marks
    → IsFirst bound (if b then m else x) (m ∷ marks)
IsFirst-if true bound m x marks e h = inl (ground arith, refl)
IsFirst-if false bound m x marks e h = inr (ground arith, h)

first_from-IsFirst :
    (bound : ℕ) (m : Mark) (marks : List Mark) (default : Mark)
    → bound ≤ (final m marks).offset
    → IsFirst bound (first_from bound (m ∷ marks) default) (m ∷ marks)
unfolding first_from final
first_from-IsFirst bound m [] default h =
    let seen : leb bound m.offset ≡ true = ground arith in rw seen (inl (h, refl))
first_from-IsFirst bound m (n ∷ marks) default h =
    IsFirst-if (leb bound m.offset) bound m (first_from bound (n ∷ marks) default) (n ∷ marks) refl
      (first_from-IsFirst bound n marks default h)

mark_at-IsFirst :
    (m : Mark) (marks : List Mark) (offset : ℕ)
    → IsFirst (min offset (final m marks).offset) (mark_at m marks offset) (m ∷ marks)
unfolding mark_at
mark_at-IsFirst m marks offset = first_from-IsFirst _ m marks (final m marks) (ground arith)

-- Every name of an order has an offset.
abbrev Known : List (ℕ × ℕ) → List ℕ → Type 0
Known last order = All (λ name. (offset : ℕ) × (find last name ≡ some offset)) order

rows_of-Spans :
    (m : Mark) (marks : List Mark) (last : List (ℕ × ℕ)) (order : List ℕ) (prev : Mark)
    → Known last order
    → (rows : List Row) × (rows_of m marks last order prev ≡ some rows)
      × Spans m marks (find last) prev rows
      × (map (λ r. r.name) rows ≡ order)
unfolding rows_of
rows_of-Spans m marks last [] prev h = ([], refl, tt, refl)
rows_of-Spans m marks last (name ∷ order) prev ((offset, f), h) =
    let mark = mark_at m marks offset in
    let (rows, q, spans, names) = rows_of-Spans m marks last order mark h in
    (
      row name mark prev ∷ rows,
      rw (f, rows_of, q) refl,
      (offset, mark, f, mark_at-IsFirst m marks offset, refl, refl, refl, spans),
      ap (◌∷◌ name) names,
    )

find-put-some :
    (d : List (ℕ × ℕ)) (name v other : ℕ)
    → (offset : ℕ) × (find d other ≡ some offset)
    → (offset : ℕ) × (find (put name v d) other ≡ some offset)
find-put-some d name v other (offset, f) = elim (Bool-cases (name == other)) [
  | inl e ↦
      let q : name ≡ other = ground arith in
      (v, subst (λ n. find (put name v d) n ≡ some v) q (find-put_self d name v))
  | inr e ↦ (offset, find-put_ne d name other v (ground arith) ∙ f)
]

note_name-Known :
    (name offset : ℕ) (s : Scan)
    → Known s.last s.order
    → Known (note_name name offset s).last (note_name name offset s).order
unfolding note_name
note_name-Known name offset s h =
    let old : All (λ n. (w : ℕ) × (find (put name offset s.last) n ≡ some w)) s.order =
      All-map s.order (λ n k. find-put-some s.last name offset n k) h in
    elim (Bool-cases (contains s.order name)) [
      | inl e ↦ rw e old
      | inr e ↦ rw e (
          All-append (λ n. (w : ℕ) × (find (put name offset s.last) n ≡ some w)) s.order (name ∷ [])
            old ((offset, find-put_self s.last name offset), tt))
    ]

scan_line-Known :
    (b : Bool) (name offset : ℕ) (s : Scan)
    → Known s.last s.order
    → let t = scan_line b name offset s in
      Known t.last t.order × (t.order ≡ (if b then add_name s.order name else s.order))
unfolding scan_line note_name
scan_line-Known true name offset s h = (note_name-Known name offset s h, refl)
scan_line-Known false name offset s h = (h, refl)

scan_lines-Known :
    (name_of : List ℕ → ℕ) (lines : List (List ℕ)) (s : Scan)
    → Known s.last s.order
    → let t = scan_lines name_of lines s in
      Known t.last t.order × (t.order ≡ names_in name_of lines s.order)
unfolding scan_lines
scan_lines-Known name_of [] s h = (h, refl)
scan_lines-Known name_of (line ∷ lines) s h =
    let offset = s.offset + length line + 1 in
    let (known, order) = scan_line-Known (is_benchmark line) (name_of line) offset s h in
    let (rest, names) =
      scan_lines-Known name_of lines (scan_line (is_benchmark line) (name_of line) offset s)
        known in
    (rest, names ∙ ap (names_in name_of lines) order)

Spans-of_find :
    (m : Mark) (marks : List Mark) (ends ends' : ℕ → Option ℕ)
    → ((name : ℕ) → ends name ≡ ends' name)
    → (prev : Mark) (rows : List Row) → Spans m marks ends prev rows
    → Spans m marks ends' prev rows
Spans-of_find m marks ends ends' same prev [] h = tt
Spans-of_find m marks ends ends' same prev (r ∷ rows) (offset, e, f, first, w, c, q, h) = (
  offset,
  e,
  sym (same r.name) ∙ f,
  first,
  w,
  c,
  q,
  Spans-of_find m marks ends ends' same e rows h,
)

-- Whatever a launch printed and whenever its marks were made, `intervals` gives one row for each
-- benchmark, in the order of their first lines. A row goes from the mark of the row before, the first
-- one from the first mark, to the first mark that is at or behind the end of the last line of its
-- benchmark, or of the output seen at the last mark where that is less, and has the wall time, CPU
-- time and wait from the one mark to the other.
pub intervals-Spans :
    (name_of : List ℕ → ℕ) (out : List ℕ) (m : Mark) (marks : List Mark)
    → let (line, lines) = split_lines out in
      (rows : List Row) × (intervals name_of out m marks ≡ some rows)
      × Spans m marks (last_end name_of 0 (line ∷ lines)) m rows
      × (map (λ r. r.name) rows ≡ names_in name_of (line ∷ lines) [])
unfolding intervals find
intervals-Spans name_of out m marks =
    let (line, lines) = split_lines out in
    let s = scan_lines name_of (line ∷ lines) nothing_seen in
    let (known, order) = scan_lines-Known name_of (line ∷ lines) nothing_seen tt in
    let (rows, q, spans, names) = rows_of-Spans m marks s.last s.order m known in
    let ends = scan_lines-last_end name_of (line ∷ lines) in
    (rows, q, Spans-of_find m marks _ _ ends m rows spans, names ∙ order)
