-- ===== src/Schedule/Tests.antt =====
-- Tests and examples of schedule/.
use gronin.Prelude.{◌+◌, true, [], ◌∷◌, ◌++◌, none, some, ◌≡◌, refl, arith}
use gronin.Prelude.Bytes.{codes}
use gronin.Schedule.Tick.{
  Entry, fire, missed, Reason, Handlers, Told, tick_one, tick, walk, note_due, set_last,
  settle_tick, tell, record_each, record_missed, record_further, fire_last, all_but_last, last_of,
  add_problem, tick_each, sort_entries, place_entry, next_due, next_due_from, earlier,
}
use gronin.Schedule.Tick.Accounts.{take}
use gronin.Schedule.Tick.Calls.{missed_calls, further_calls}
use gronin.Schedule.Tick.Once.{tick_one-accounted, tick_one-unending}

abbrev handlers : Handlers
handlers = record {
  fire_error = λ name at. none;
  has_missed = true;
  missed_error = λ name at. none;
}

abbrev untold : Told
untold = record { calls = []; problems = [] }

-- Every ten.
abbrev by_ten : Entry
by_ten = record { name = codes "report"; next = λ t. t + 10; seen_to = 100 }

-- No occurrence, ever.
abbrev never : Entry
never = record { name = codes "never"; next = λ t. 0; seen_to = 100 }

tick_two_missed :
    tick 9 handlers 135 (by_ten ∷ [])
    ≡ some (
      (record by_ten { seen_to = 135 }) ∷ [],
      record {
        calls =
            missed (codes "report") 110 Reason.not_running
            ∷ missed (codes "report") 120 Reason.not_running
            ∷ fire (codes "report") 130
            ∷ [];
        problems = [];
      },
    )
unfolding tick tick_each sort_entries place_entry tick_one walk note_due set_last settle_tick tell
    record_each record_missed record_further fire_last all_but_last last_of add_problem
tick_two_missed = refl

next_due_earliest : next_due 100 (by_ten ∷ (record by_ten { next = λ t. t + 3 }) ∷ []) ≡ 103
unfolding next_due next_due_from earlier
next_due_earliest = refl

tick_one-accounted_example :
    (told : Told) × (tick_one 9 handlers 135 by_ten untold
      ≡ some (record by_ten { seen_to = 135 }, told))
    × (told.calls
        ≡ untold.calls
          ++ (missed_calls (codes "report") (take 49 (110 ∷ 120 ∷ []))
              ++ (further_calls (codes "report") 130 0 ++ fire (codes "report") 130 ∷ [])))
tick_one-accounted_example =
    tick_one-accounted 9 handlers 135 by_ten untold (110 ∷ 120 ∷ []) 130 (omega arith) (omega arith)
      refl

tick_one-unending_example : tick_one 1000 handlers 135 never untold ≡ none
tick_one-unending_example = tick_one-unending 1000 handlers 135 never untold refl refl
