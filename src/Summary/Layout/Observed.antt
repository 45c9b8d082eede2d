-- ===== src/Summary/Layout/Observed.antt =====
-- The launches that layout logs observe.
use matching_machine.Effects.{ok, raise}
use matching_machine.Effects.Checks.{Holds, Holds-imp, Holds-bind}
use matching_machine.Prelude.{
  ℕ, ◌≡◌, refl, sym, ap, ◌∙◌, subst, Bool, true, false, ◌||◌, not, Option, none, some, List, [],
  ◌∷◌, arith, ◌==◌, if◌then◌else◌, length, map, select, any, All, All-map, All-zip, count,
  Bool-cases, inl, inr,
}
use matching_machine.Summary.{Key, same_key, LaunchRow, has_key}
use matching_machine.Summary.Layout.Lines.{IsConsistent, IsOf, addresses, add_lines-IsOf, selected}
use matching_machine.Summary.Layout.{
  log, File, same_kind, Reader, Observation, is_match, command, find_file, Metadata,
  incomplete_launch, complete_metadata, only, identify, find_launch, observe, read_log, read_logs,
  layout_observations,
}

same_key_refl : (k : Key) → same_key k k ≡ true
same_key_refl k = ground arith

module _ (launches : List LaunchRow) where
  has_key_mono :
      (r : LaunchRow) (rows : List LaunchRow) (k : Key)
      → has_key rows k ≡ true
      → has_key (r ∷ rows) k ≡ true
  unfolding has_key
  has_key_mono r rows k h = ground arith

  has_key_self : (rows : List LaunchRow) → All (λ r. has_key rows r.key ≡ true) rows
  unfolding has_key
  has_key_self [] = tt
  has_key_self (r ∷ rows) = (
    ground (arith, same_key_refl r.key),
    All-map rows (λ s h. has_key_mono r rows s.key h) (has_key_self rows),
  )

  All-select :
      (P : LaunchRow → Type 0) (p : LaunchRow → Bool) (rows : List LaunchRow)
      → All P rows
      → All P (select p rows)
  All-select P p [] h = tt
  All-select P p (r ∷ rows) h = elim (Bool-cases (p r)) [
    | inl e ↦ rw e (h.0, All-select P p rows h.1)
    | inr e ↦ rw e (All-select P p rows h.1)
  ]

  abbrev pub IsRecorded : Key → Type 0
  IsRecorded k = has_key launches k ≡ true

  -- The key of the only launch of a session, a block and a condition.
  abbrev pub IsIdentified : Option (ℕ × ℕ) → ℕ → Key → Type 0
  IsIdentified identity condition k =
      IsRecorded k
      × (identity ≡ some (k.session, k.block))
      × (condition ≡ k.condition)
      × (count (is_match (k.session, k.block) condition) launches ≡ 1)

  only-first :
      (P : LaunchRow → Type 0) (rows : List LaunchRow)
      → All P rows
      → Holds (λ k. (r : LaunchRow) × (r.key ≡ k) × P r × (length rows ≡ 1)) (only rows)
  unfolding only
  only-first P [] h = tt
  only-first P (r ∷ []) h = (r, refl, h.0, refl)
  only-first P (r ∷ s ∷ rows) h = tt

  match_parts :
      (session block condition : ℕ) (r : LaunchRow)
      → is_match (session, block) condition r ≡ true
      → (session ≡ r.key.session) × (block ≡ r.key.block) × (condition ≡ r.key.condition)
  match_parts session block condition r h = ground arith

  identify-IsIdentified :
      (identity : Option (ℕ × ℕ)) (condition : ℕ)
      → Holds (IsIdentified identity condition) (identify launches identity condition)
  unfolding identify
  identify-IsIdentified none condition = tt
  identify-IsIdentified (some (session, block)) condition =
      let p = is_match (session, block) condition in
      let (all, n) = selected p launches in
      let both =
        All-zip (select p launches)
          (λ (r : LaunchRow) (m : p r ≡ true) (k : IsRecorded r.key). (m, k)) all
          (All-select (λ r. IsRecorded r.key) p launches (has_key_self launches)) in
      Holds-imp _ (IsIdentified (some (session, block)) condition) _
        (λ k (r, e, (m, known), one).
          let (a, b, c) = match_parts session block condition r m in
          let at_session : session ≡ k.session = a ∙ ap (λ l. l.session) e in
          let at_block : block ≡ k.block = b ∙ ap (λ l. l.block) e in
          (
            subst IsRecorded e known,
            rw (at_session, at_block) refl,
            c ∙ ap (λ l. l.condition) e,
            subst (λ (q : ℕ × ℕ). count (is_match q condition) launches ≡ 1)
                (rw (at_session, at_block) refl) (sym n ∙ one),
          ))
        (only-first (λ r. (p r ≡ true) × IsRecorded r.key) (select p launches) both)

  module _ (reader : Reader) (all : List File) where
    -- The launch that the metadata of a log identify.
    abbrev pub IsLaunchOf : ℕ → Key → Type 0
    IsLaunchOf stem k =
        (content : ℕ) × (find_file stem command all ≡ some content)
        × ((reader.metadata_of content).complete ≡ true)
        × IsIdentified (reader.identity_of stem) (reader.metadata_of content).condition k

    abbrev IsMetadata : Option ℕ → Metadata → Type 0
    IsMetadata found m =
        (content : ℕ) × (found ≡ some content)
        × ((reader.metadata_of content).complete ≡ true)
        × (m ≡ reader.metadata_of content)

    complete_metadata-IsMetadata :
        (found : Option ℕ) → Holds (IsMetadata found) (complete_metadata reader found)
    unfolding complete_metadata
    complete_metadata-IsMetadata none = tt
    complete_metadata-IsMetadata (some content) = go (reader.metadata_of content).complete refl
      where
        go :
            (b : Bool)
            → (reader.metadata_of content).complete ≡ b
            → Holds
                (IsMetadata (some content))
                (if b then ok (reader.metadata_of content) else raise incomplete_launch)
        go true e = (content, refl, e, refl)
        go false e = tt

    find_launch-IsLaunchOf :
        (stem : ℕ) → Holds (IsLaunchOf stem) (find_launch reader launches all stem)
    unfolding find_launch
    find_launch-IsLaunchOf stem =
        Holds-bind (IsMetadata (find_file stem command all)) (IsLaunchOf stem) _
          (λ m. identify launches (reader.identity_of stem) m.condition)
          (complete_metadata-IsMetadata (find_file stem command all))
          (λ m (content, f, done, same).
            Holds-imp _ (IsLaunchOf stem) _
              (λ k h. (
                content,
                f,
                done,
                subst (λ (d : Metadata). IsIdentified (reader.identity_of stem) d.condition k) same
                    h,
              ))
              (identify-IsIdentified (reader.identity_of stem) m.condition))

    -- What a log with layout lines says: its launch, the addresses of all its lines, and their residues.
    abbrev pub IsObservationOf : File → Observation → Type 0
    IsObservationOf f v =
        IsLaunchOf f.stem v.key
        × (map some v.address ≡ addresses (reader.lines_of f.content))
        × IsConsistent v

    -- One observation for each of the logs, in the same order, no two of the same launch.
    abbrev pub AreObservations : List File → List Observation → Type 0
    AreObservations [] [] = Unit
    AreObservations (f ∷ files) (v ∷ vs) =
        IsObservationOf f v
        × (any (λ w. same_key w.key v.key) vs ≡ false)
        × AreObservations files vs
    AreObservations _ _ = ⊥

    -- The logs with layout lines, the last one first, behind those seen before.
    abbrev pub is_layout : File → Bool
    is_layout f = not (not (same_kind f.kind log) || length (reader.lines_of f.content) == 0)

    abbrev pub layouts : List File → List File → List File
    layouts [] seen = seen
    layouts (f ∷ files) seen = layouts files (if is_layout f then f ∷ seen else seen)

    observe-AreObservations :
        (f : File) (seen : List File) (vs : List Observation) (key : Key)
        → IsLaunchOf f.stem key
        → AreObservations seen vs
        → Holds (AreObservations (f ∷ seen)) (observe (reader.lines_of f.content) vs key)
    unfolding observe
    observe-AreObservations f seen vs key k h =
        elim (Bool-cases (any (λ v. same_key v.key key) vs)) [
          | inl e ↦ rw e tt
          | inr e ↦ rw e (
              Holds-bind (IsOf key (addresses (reader.lines_of f.content)))
                (AreObservations (f ∷ seen)) _ (λ v. ok (v ∷ vs))
                (add_lines-IsOf key [] (reader.lines_of f.content) _ (refl, (refl, refl), refl))
                (λ v o. (
                  (subst (IsLaunchOf f.stem) (sym o.0) k, o.2, o.1),
                  ap (λ l. any (λ w. same_key w.key l) vs) o.0 ∙ e,
                  h,
                )))
        ]

    read_log-AreObservations :
        (f : File) (seen : List File) (vs : List Observation)
        → AreObservations seen vs
        → Holds
            (AreObservations (if is_layout f then f ∷ seen else seen))
            (read_log reader launches all f vs)
    unfolding read_log
    read_log-AreObservations f seen vs h =
        elim (Bool-cases (not (same_kind f.kind log) || length (reader.lines_of f.content) == 0)) [
          | inl e ↦ rw e h
          | inr e ↦ rw e (
              Holds-bind (IsLaunchOf f.stem) (AreObservations (f ∷ seen)) _
                (observe (reader.lines_of f.content) vs) (find_launch-IsLaunchOf f.stem)
                (λ key k. observe-AreObservations f seen vs key k h))
        ]

    read_logs-AreObservations :
        (left seen : List File) (vs : List Observation)
        → AreObservations seen vs
        → Holds (AreObservations (layouts left seen)) (read_logs reader launches all left vs)
    unfolding read_logs
    read_logs-AreObservations [] seen vs h = h
    read_logs-AreObservations (f ∷ left) seen vs h =
        let seen' = if is_layout f then f ∷ seen else seen in
        Holds-bind (AreObservations seen') (AreObservations (layouts left seen')) _
          (read_logs reader launches all left) (read_log-AreObservations f seen vs h)
          (λ vs' a. read_logs-AreObservations left seen' vs' a)

  -- If all layout logs are accepted, there is one observation for each log with layout lines. Each is
  -- of a recorded launch, the only one of the log's session and block and its metadata's condition, no
  -- two are of the same, and it has the addresses of all lines of the log and their residues.
  pub layout_observations-AreObservations :
      (reader : Reader) (files : List File)
      → Holds
          (AreObservations reader files (layouts reader files files []))
          (layout_observations reader launches files)
  unfolding layout_observations
  layout_observations-AreObservations reader files =
      read_logs-AreObservations reader files files [] [] tt
