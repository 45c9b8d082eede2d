-- ===== src/Recorder/Launch/Kills.antt =====
-- Whom an abandoned launch takes with it.
use matching_machine.Prelude.{
  ℕ, ◌<◌, ◌≤◌, ◌⊎◌, ◌≡◌, ◌≢◌, refl, Bool, false, ◌&&◌, Option, none, some, List, [], ◌∷◌, arith,
  ◌==◌, if◌then◌else◌,
}
use matching_machine.Recorder.Launch.{
  Process, Signal, opened, closed, kill_process, kill_group, kill_pinned, kill_seen, kill_all,
  kill_launch_session,
}

-- The processes that a list of signals kills, pins and lets go.
abbrev pub killed : List Signal → List ℕ
killed [] = []
killed (kill_process p ∷ s) = p ∷ killed s
killed (_ ∷ s) = killed s

abbrev pub held : List Signal → List ℕ
held [] = []
held (opened p ∷ s) = p ∷ held s
held (_ ∷ s) = held s

abbrev pub let_go : List Signal → List ℕ
let_go [] = []
let_go (closed p ∷ s) = p ∷ let_go s
let_go (_ ∷ s) = let_go s

abbrev groups : List Signal → List ℕ
groups [] = []
groups (kill_group p ∷ s) = p ∷ groups s
groups (_ ∷ s) = groups s

abbrev is_in : ℕ → Option ℕ → Bool
is_in session none = false
is_in session (some s) = s == session

-- In the session at both looks.
abbrev pub stays : ℕ → Process → Bool
stays session p =
    is_in session p.session && elim p.pinned [ none ↦ false | some again ↦ is_in session again ]

-- The pids of the processes that stay.
abbrev pub stay : ℕ → List Process → List ℕ
stay session [] = []
stay session (p ∷ ps) = if stays session p then p.pid ∷ stay session ps else stay session ps

abbrev pub Kills : ℕ → List Process → List Signal → Type 0
Kills session ps sent =
    (killed sent ≡ stay session ps) × (held sent ≡ let_go sent) × (groups sent ≡ session ∷ [])

kill_all-Kills : (session : ℕ) (ps : List Process) → Kills session ps (kill_all session ps)
unfolding kill_all kill_seen kill_pinned
kill_all-Kills session [] = (refl, refl, refl)
kill_all-Kills session (p ∷ ps) = ground (arith, kill_all-Kills session ps)

pub kill_other :
    (own session : ℕ) (ps : List Process)
    → 1 < session
    → session ≢ own
    → (sent : List Signal) × (kill_launch_session own session ps ≡ some sent)
      × Kills session ps sent
unfolding kill_launch_session
kill_other own session ps h ne = (kill_all session ps, ground arith, kill_all-Kills session ps)

-- The two answers of `kill_launch_session`: a refusal, and signals.
abbrev pub Answers : ℕ → ℕ → List Process → Option (List Signal) → Type 0
Answers own session ps none = (session ≤ 1) ⊎ (session ≡ own)
Answers own session ps (some sent) = (1 < session) × (session ≢ own) × Kills session ps sent

-- Only the sessions 0 and 1 and the recorder's own are refused, and they are. Any other session is
-- killed: the processes killed one by one are those that belong to it both before and after they are
-- pinned, every process that is pinned is let go, and the group of the session is killed once.
pub kill_launch_session-Kills :
    (own session : ℕ) (ps : List Process)
    → Answers own session ps (kill_launch_session own session ps)
unfolding kill_launch_session
kill_launch_session-Kills own session ps = ground (arith, kill_all-Kills session ps)
