-- ===== src/Schedule/Tick.antt =====
-- schedule/schedule.go: `Tick` and `tickOne`. An instant is its nanoseconds since the zero time,
-- which is 0. The cron library's `Next`, the `Fire` and the `Missed` functions are arguments; the
-- calls of those two are kept as a list. The walk over due occurrences runs on fuel: `none` is
-- that it was not over.
pub mod Accounts
pub mod Calls
pub mod Once
use gronin.Prelude.{
  ℕ, zero, suc, ◌+◌, ◌-◌, Bool, true, false, List, [], ◌∷◌, ◌++◌, map, Option, none, some, String,
  ltb, leb, ◌==◌, if◌then◌else◌, length,
}
use gronin.Prelude.Bytes.{Bytes, at_most}

pub record Entry : Type 0 where
  pub name : Bytes
  pub next : ℕ → ℕ
  pub seen_to : ℕ

-- Why an occurrence is recorded as missed.
pub data Reason : Type 0 where
  not_running : Reason
  further : ℕ → Reason
  not_fired : ℕ → Reason

pub data Call : Type 0 where
  fire : Bytes → ℕ → Call
  missed : Bytes → ℕ → Reason → Call

-- What the functions of the scheduler answer: an error, by its number. `missed` may be nil.
pub record Handlers : Type 0 where
  pub fire_error : Bytes → ℕ → Option ℕ
  pub has_missed : Bool
  pub missed_error : Bytes → ℕ → Option ℕ

abbrev pub catch_up_limit : ℕ
catch_up_limit = 50

-- due[len(due)-1] = at
unfoldable pub set_last : ℕ → List ℕ → List ℕ
set_last at [] = []
set_last at (d ∷ []) = at ∷ []
set_last at (d ∷ e ∷ ds) = d ∷ set_last at (e ∷ ds)

pub record Walk : Type 0 where
  pub due : List ℕ
  pub overflow : ℕ

-- The body of the loop over occurrences.
unfoldable pub note_due : ℕ → Walk → Walk
note_due at w =
    if length w.due == catch_up_limit
    then record { due = set_last at w.due; overflow = w.overflow + 1 }
    else record w { due = w.due ++ at ∷ [] }

-- for at := …; !at.After(now); at = Next(at)
unfoldable pub walk : ℕ → (ℕ → ℕ) → ℕ → ℕ → Walk → Option Walk
walk zero next now at w = none
walk (suc fuel) next now at w =
    let rest = walk fuel next now (next at) (note_due at w) in if ltb now at then some w else rest

-- s.record, with the calls and the problems so far; the zero `Option` is no error.
pub record Told : Type 0 where
  pub calls : List Call
  pub problems : List ℕ

unfoldable pub add_problem : Option ℕ → List ℕ → List ℕ
add_problem none problems = problems
add_problem (some e) problems = problems ++ e ∷ []

unfoldable pub record_missed : Handlers → Bytes → ℕ → Reason → Told → Told
record_missed h name at why t =
    if h.has_missed
    then record {
      calls = t.calls ++ missed name at why ∷ [];
      problems = add_problem (h.missed_error name at) t.problems;
    }
    else t

unfoldable pub record_each : Handlers → Bytes → List ℕ → Told → Told
record_each h name [] t = t
record_each h name (at ∷ ats) t =
    record_each h name ats (record_missed h name at Reason.not_running t)

-- due[:len(due)-1] and the last, where there is one.
unfoldable pub all_but_last : List ℕ → List ℕ
all_but_last [] = []
all_but_last (d ∷ []) = []
all_but_last (d ∷ e ∷ ds) = d ∷ all_but_last (e ∷ ds)

unfoldable pub last_of : ℕ → List ℕ → ℕ
last_of default [] = default
last_of default (d ∷ ds) = last_of d ds

unfoldable pub record_further : Handlers → Bytes → ℕ → ℕ → Told → Told
record_further h name last overflow t =
    if overflow == 0 then t else record_missed h name (last - 1) (Reason.further overflow) t

unfoldable pub fire_last : Handlers → Bytes → ℕ → Told → Told
fire_last h name last t =
    let fired : Told = record t { calls = t.calls ++ fire name last ∷ [] } in
    elim (h.fire_error name last) [
      | none ↦ fired
      | some e ↦ record_missed h name last (Reason.not_fired e) fired
    ]

unfoldable pub tell : Handlers → Bytes → List ℕ → ℕ → Told → Told
tell h name due overflow t =
    let last = last_of 0 due in
    fire_last h name last
      (record_further h name last overflow (record_each h name (all_but_last due) t))

-- From the occurrences that were walked, to the entry and what was told.
unfoldable pub settle_tick : Handlers → ℕ → Entry → Told → Walk → Entry × Told
settle_tick h now e t w = elim w.due [
  | [] ↦ (e, t)
  | d ∷ ds ↦ (record e { seen_to = now }, tell h e.name (d ∷ ds) w.overflow t)
]

abbrev pub no_walk : Walk
no_walk = record { due = []; overflow = 0 }

unfoldable pub tick_one : ℕ → Handlers → ℕ → Entry → Told → Option (Entry × Told)
tick_one fuel h now e t = elim (walk fuel e.next now (e.next e.seen_to) no_walk) [
  | none ↦ none
  | some w ↦ some (settle_tick h now e t w)
]

-- sort.Slice by the names.
unfoldable pub place_entry : Entry → List Entry → List Entry
place_entry e [] = e ∷ []
place_entry e (f ∷ fs) =
    let rest = place_entry e fs in if at_most e.name f.name then e ∷ f ∷ fs else f ∷ rest

unfoldable pub sort_entries : List Entry → List Entry
sort_entries [] = []
sort_entries (e ∷ es) = place_entry e (sort_entries es)

unfoldable pub tick_each : ℕ → Handlers → ℕ → List Entry → Told → Option (List Entry × Told)
tick_each fuel h now [] t = some ([], t)
tick_each fuel h now (e ∷ es) t = elim (tick_one fuel h now e t) [
  | none ↦ none
  | some (e', t') ↦ elim (tick_each fuel h now es t') [
    | none ↦ none
    | some (es', last) ↦ some (e' ∷ es', last)
  ]
]

unfoldable pub tick : ℕ → Handlers → ℕ → List Entry → Option (List Entry × Told)
tick fuel h now es = tick_each fuel h now (sort_entries es) (record { calls = []; problems = [] })

-- The earliest occurrence after an instant, or the zero time.
unfoldable pub earlier : ℕ → ℕ → ℕ
earlier next earliest = if earliest == 0 then next else if ltb next earliest then next else earliest

unfoldable pub next_due_from : ℕ → List Entry → ℕ → ℕ
next_due_from now [] earliest = earliest
next_due_from now (e ∷ es) earliest = next_due_from now es (earlier (e.next now) earliest)

unfoldable pub next_due : ℕ → List Entry → ℕ
next_due now es = next_due_from now es 0
