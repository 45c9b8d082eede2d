-- ===== src/Summary/Layout/Files.antt =====
-- The files of a study, from its archive and its directory.
use matching_machine.Effects.{Result, ok, raise}
use matching_machine.Effects.Checks.{Holds, Holds-imp}
use matching_machine.Prelude.{
  ℕ, ◌≡◌, ◌≢◌, refl, sym, ap, ◌∙◌, true, false, ◌&&◌, Option, none, some, List, [], ◌∷◌, ◌++◌,
  arith, ◌==◌, All, Bool-cases, inl, inr,
}
use matching_machine.Summary.Layout.{
  Kind, log, command, other_kind, Member, File, Fault, is_wanted, find_file, keep_with, keep,
  keep_all, raw_files,
}

-- The member can be read among the files, with its content.
abbrev pub IsKept : List File → Member → Type 0
IsKept files m =
    (m.is_file && is_wanted m.kind) ≡ true → find_file m.stem m.kind files ≡ some m.content

true_ne_false : true ≢ false
true_ne_false e = cc

-- A file that is found stays found.
find_file-append :
    (stem : ℕ) (kind : Kind) (files more : List File) (content : ℕ)
    → find_file stem kind files ≡ some content
    → find_file stem kind (files ++ more) ≡ some content
unfolding find_file
find_file-append stem kind [] more content h = cc
find_file-append stem kind (f ∷ files) more content h =
    ground (arith, find_file-append stem kind files more content)

find_file-snoc :
    (stem : ℕ) (kind : Kind) (files : List File) (content : ℕ)
    → find_file stem kind files ≡ none
    → find_file stem kind (files ++ record { stem = stem; kind = kind; content = content } ∷ [])
      ≡ some content
unfolding find_file
find_file-snoc stem log [] content h = ground arith
find_file-snoc stem command [] content h = ground arith
find_file-snoc stem other_kind [] content h = ground arith
find_file-snoc stem kind (f ∷ files) content h =
    ground (arith, find_file-snoc stem kind files content)

-- What is found among some files is found among others.
abbrev pub Extends : List File → List File → Type 0
Extends files out =
    (stem : ℕ) (kind : Kind) (content : ℕ)
    → find_file stem kind files ≡ some content
    → find_file stem kind out ≡ some content

abbrev Keeps : Member → List File → List File → Type 0
Keeps m files out = Extends files out × (find_file m.stem m.kind out ≡ some m.content)

keep_with-Keeps :
    (m : Member) (files : List File) (found : Option ℕ)
    → find_file m.stem m.kind files ≡ found
    → Holds (Keeps m files) (keep_with m files found)
unfolding keep_with
keep_with-Keeps m files none e = (
  λ stem kind content h.
      find_file-append stem kind files
        (record { stem = m.stem; kind = m.kind; content = m.content } ∷ []) content h,
  find_file-snoc m.stem m.kind files m.content e,
)
keep_with-Keeps m files (some content) e = elim (Bool-cases (content == m.content)) [
  | inl q ↦
      let same : content ≡ m.content = ground arith in rw q ((λ stem kind c h. h), e ∙ ap some same)
  | inr q ↦ rw q tt
]

abbrev AllKept : List Member → List File → List File → Type 0
AllKept members files out = Extends files out × All (IsKept out) members

-- The rest of the members, behind one that was kept.
keep_rest-AllKept :
    (m : Member) (members : List Member) (files : List File) (r : Result Fault (List File))
    → Holds (Keeps m files) r
    → ((files' : List File) → Holds (AllKept members files') (keep_all members files'))
    → Holds
        (AllKept (m ∷ members) files)
        (elim r [ raise e ↦ raise e | ok files' ↦ keep_all members files' ])
keep_rest-AllKept m members files (raise e) h rest = tt
keep_rest-AllKept m members files (ok files') (extends, here) rest =
    Holds-imp (AllKept members files') _ (keep_all members files')
      (λ out k. (
        (λ stem kind c h. k.0 stem kind c (extends stem kind c h)),
        ((λ _. k.0 m.stem m.kind m.content here), k.1),
      ))
      (rest files')

keep_all-AllKept :
    (members : List Member) (files : List File)
    → Holds (AllKept members files) (keep_all members files)
unfolding keep_all keep
keep_all-AllKept [] files = ((λ stem kind c h. h), tt)
keep_all-AllKept (m ∷ members) files = elim (Bool-cases (m.is_file && is_wanted m.kind)) [
  | inl e ↦ rw e (
      keep_rest-AllKept m members files _ (keep_with-Keeps m files _ refl)
        (keep_all-AllKept members))
  | inr e ↦ rw e (
      Holds-imp (AllKept members files) _ (keep_all members files)
        (λ out k. (k.0, ((λ w. absurd (true_ne_false (sym w ∙ e))), k.1)))
        (keep_all-AllKept members files))
]

-- If `raw_files` accepts an archive and a directory, then every log and command file of either one is
-- among its files, with its own content: copies that differ are refused.
pub raw_files-IsKept :
    (archive raw : List Member)
    → Holds (λ files. All (IsKept files) (archive ++ raw)) (raw_files archive raw)
unfolding raw_files
raw_files-IsKept archive raw =
    Holds-imp (AllKept (archive ++ raw) []) _ (keep_all (archive ++ raw) []) (λ out k. k.1)
      (keep_all-AllKept (archive ++ raw) [])
