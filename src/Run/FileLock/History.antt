-- ===== src/Run/FileLock/History.antt =====
-- What holds along the steps of every process: exclusive locks, and a claim that is released once.
use gronin.Prelude.{
  ℕ, ◌≡◌, refl, true, [], Result, ok, err, exists_row, ◌==◌, select, arith, Bool-cases, inl, inr,
}
use gronin.Guard.Coordinator.{AcquireRequest, AcquireError}
use gronin.Run.FileLock.{Faults, State, acquire, release, unclaim}
use gronin.Run.FileLock.Exclusion.{
  Step, IsExclusive, acquire-IsExclusive, release-IsExclusive, acquire-refused_keeps,
  acquire-granted,
}

-- Any number of steps.
pub data Steps (s : State) : State → Type 0 where
  stop : Steps s s
  then : (t u : State) → Steps s t → Step t u → Steps s u

-- No lock, no tick and no start: what a new state directory holds.
abbrev pub empty : State
empty = record { locks = []; files = []; next = 0; released = []; ticks = []; starts = [] }

Step-IsExclusive : (s t : State) → Step s t → IsExclusive s → IsExclusive t
Step-IsExclusive s _ (Step.acquired f req _) w = acquire-IsExclusive f req s w
Step-IsExclusive s _ (Step.returned file _) w = release-IsExclusive file s w

Steps-IsExclusive : (s t : State) → Steps s t → IsExclusive s → IsExclusive t
Steps-IsExclusive s _ Steps.stop w = w
Steps-IsExclusive s u (Steps.then t _ before step) w =
    Step-IsExclusive t u step (Steps-IsExclusive s t before w)

reachable-IsExclusive : (s : State) → Steps empty s → IsExclusive s
unfolding exists_row select
reachable-IsExclusive s path =
    Steps-IsExclusive empty s path (record { fresh = λ x h. refl; once = λ name. ground arith })

-- In a state that is reached from an empty state directory, an acquisition that is refused, whatever
-- the refusal and whatever fails on the way, leaves the held locks and the releases as they were.
pub refused_keeps_locks :
    (f : Faults) (req : AcquireRequest) (s s' : State) (why : AcquireError)
    → Steps empty s
    → acquire f req s ≡ (err why, s')
    → (s'.locks ≡ s.locks) × (s'.released ≡ s.released)
refused_keeps_locks f req s s' why path e =
    let (a, b, c) = acquire-refused_keeps f req s s' why (reachable-IsExclusive s path).fresh e in
    (a, b)

-- A release that was done stays done.
step_keeps_released :
    (file : ℕ) (s t : State)
    → Step s t
    → IsExclusive s
    → exists_row (λ r. r == file) s.released ≡ true
    → exists_row (λ r. r == file) t.released ≡ true
unfolding release unclaim exists_row
step_keeps_released file s _ (Step.returned other _) w h =
    elim (Bool-cases (exists_row (λ r. r == other) s.released)) [
      | inl done ↦ rw done h
      | inr first ↦ rw first (ground arith)
    ]
step_keeps_released file s _ (Step.acquired f req _) w h = go (acquire f req s) refl
  where
    go :
        (r : Result AcquireError ℕ × State)
        → acquire f req s ≡ r
        → exists_row (λ r. r == file) r.1.released ≡ true
    go (err why, s') e = let (a, b, c) = acquire-refused_keeps f req s s' why w.fresh e in rw b h
    go (ok c, s') e = let (is_c, free, (a, b, d), m) = acquire-granted f req s s' c e in rw d h

Steps-keep_released :
    (file : ℕ) (s t : State)
    → Steps s t
    → IsExclusive s
    → exists_row (λ r. r == file) s.released ≡ true
    → exists_row (λ r. r == file) t.released ≡ true
Steps-keep_released file s _ Steps.stop w h = h
Steps-keep_released file s u (Steps.then t _ before step) w h =
    step_keeps_released file t u step (Steps-IsExclusive s t before w)
      (Steps-keep_released file s t before w h)

release_marks :
    (file : ℕ) (s : State) → exists_row (λ r. r == file) (release file s).released ≡ true
unfolding release unclaim exists_row
release_marks file s = elim (Bool-cases (exists_row (λ r. r == file) s.released)) [
  | inl done ↦ rw done done
  | inr first ↦ rw first (ground arith)
]

-- Once a claim is released, and whatever the processes do after that, releasing it again changes
-- nothing: it does not free a lock that another claim has taken since.
pub release-release :
    (file : ℕ) (s t : State) → Steps empty s → Steps (release file s) t → release file t ≡ t
unfolding release
release-release file s t reached path =
    rw
      (Steps-keep_released file (release file s) t path
        (release-IsExclusive file s (reachable-IsExclusive s reached)) (release_marks file s))
      refl
