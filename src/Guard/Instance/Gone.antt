-- ===== src/Guard/Instance/Gone.antt =====
-- After a reconciliation no wait is left whose process is gone, or that a run names.
use gronin.Prelude.{
  ◌≡◌, refl, Bool, true, false, ◌&&◌, ◌||◌, List, [], ◌∷◌, map, none, String, str_eq, eq_refl,
  select, exists_row, exists-map, exists-select, exists_mono, arith, Bool-cases, inl, inr,
}
use gronin.Record.Types.{WaitingTrigger, RunRow}
use gronin.Record.Db.{Db, is_waiting}
use gronin.Record.Waiting.{still_waiting, with_run, by_acceptance, insert_by_acceptance}
use gronin.Guard.Instance.{Host, Progress, reconcile_each, reconcile}
use gronin.Guard.Instance.Rounds.{is_over, is_left, is_left_as, reconcile_each_rounds}

and_swap : (a b c : Bool) → (a && (b && c)) ≡ true → (b && (a && c)) ≡ true
and_swap a b c h = ground arith

or_false : (a b : Bool) → (a || b) ≡ false → (a ≡ false) × (b ≡ false)
or_false a b h = (ground arith, ground arith)

and_or : (a b c : Bool) → a ≡ true → (a && b) ≡ false → c ≡ false → (b || c) ≡ false
and_or a b c h k l = ground arith

insert-exists :
    (q : WaitingTrigger → Bool) (w : WaitingTrigger) (ws : List WaitingTrigger)
    → exists_row q (insert_by_acceptance w ws) ≡ (q w || exists_row q ws)
unfolding insert_by_acceptance exists_row
insert-exists q w [] = refl
insert-exists q w (x ∷ xs) = ground (arith, insert-exists q w xs)

sort-exists :
    (q : WaitingTrigger → Bool) (ws : List WaitingTrigger)
    → exists_row q (by_acceptance ws) ≡ exists_row q ws
unfolding by_acceptance exists_row
sort-exists q [] = refl
sort-exists q (w ∷ ws) = rw (insert-exists q w (by_acceptance ws), sort-exists q ws) refl

-- A wait to end is among those that the loop reads, beside its run.
left-still_waiting :
    (h : Host) (id : String) (db : Db)
    → exists_row (is_left_as h db.runs id) db.waiting_triggers ≡ true
    → exists_row (λ t. str_eq t.id id && is_over h t) (still_waiting db) ≡ true
unfolding still_waiting
left-still_waiting h id db k =
    rw
      (
        sort-exists (λ t. str_eq t.id id && is_over h t)
            (map (with_run db.runs) (select (λ w. is_waiting w.outcome) db.waiting_triggers)),
        exists-map (λ t. str_eq t.id id && is_over h t) (with_run db.runs)
            (select (λ w. is_waiting w.outcome) db.waiting_triggers),
        exists-select (λ w. str_eq w.id id && is_over h (with_run db.runs w))
            (λ w. is_waiting w.outcome) db.waiting_triggers,
      )
      (exists_mono (is_left_as h db.runs id) _
        (λ w. and_swap (str_eq w.id id) (is_waiting w.outcome) (is_over h (with_run db.runs w)))
        db.waiting_triggers k)

-- Where no identifier has a row to end, there is none.
left_by_id :
    (h : Host) (runs : List RunRow) (rows : List WaitingTrigger)
    → ((id : String) → exists_row (is_left_as h runs id) rows ≡ false)
    → exists_row (is_left h runs) rows ≡ false
unfolding exists_row
left_by_id h runs [] e = refl
left_by_id h runs (w ∷ ws) e =
    let (first, rest) = or_false _ _ (e w.id) in
    and_or (str_eq w.id w.id) (is_left h runs w) _ (eq_refl w.id) first
      (left_by_id h runs ws (λ id. (or_false _ _ (e id)).1))

-- A reconciliation that reports no error leaves no waiting trigger that a run names, and none whose
-- instance's lock is not held.
pub reconcile-none_left :
    (h : Host) (db : Db)
    → (reconcile h db).failure ≡ none
    → exists_row (is_left h (reconcile h db).db.runs) (reconcile h db).db.waiting_triggers ≡ false
unfolding reconcile
reconcile-none_left h db e =
    let start : Progress = record { count = 0; failure = none; db = db } in
    let (rs, keeps, ends) = reconcile_each_rounds h (still_waiting db) start e in
    rw rs (
      left_by_id h db.runs (reconcile_each h (still_waiting db) start).db.waiting_triggers (λ id.
        elim (Bool-cases (exists_row (is_left_as h db.runs id) db.waiting_triggers)) [
          | inl left ↦ ends db.runs id (left-still_waiting h id db left)
          | inr unleft ↦ keeps db.runs id unleft
        ]))
