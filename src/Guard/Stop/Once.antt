-- ===== src/Guard/Stop/Once.antt =====
-- The stop decision is made once.
use gronin.Prelude.{◌≡◌, true, List, [], ◌∷◌, some, String, refl, arith}
use gronin.Guard.Clock.{Instant}
use gronin.Guard.Stop.{Stopping, undecided, decide_to_stop, decide_all, fence}

decided_stays :
    (rest : List (String × Instant)) (h : Stopping) → h.decided ≡ true → decide_all rest h ≡ h
unfolding decide_all decide_to_stop
decided_stays [] h d = refl
decided_stays ((why, now) ∷ rest) h d = ground (arith, decided_stays rest h d)

-- However many causes ask to stop a run, the first one alone is acted on: its reason is the one
-- stored, the run's context is cancelled once, and one enforcement starts, at its reading. A fence
-- that fails after them returns its error and changes nothing more.
pub decide_all_once :
    (why later : String) (now then_at : Instant) (rest : List (String × Instant))
    → (decide_all ((why, now) ∷ rest) undecided
        ≡ record { decided = true; reason = some why; stop_calls = 1; enforcing = now ∷ [] })
      × (fence (some (some later)) then_at (decide_all ((why, now) ∷ rest) undecided)
          ≡ (some later, decide_all ((why, now) ∷ rest) undecided))
unfolding decide_all decide_to_stop fence
decide_all_once why later now then_at rest =
    let e = decided_stays rest (decide_to_stop why now undecided) refl in (e, rw e refl)
