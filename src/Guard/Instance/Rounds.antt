-- ===== src/Guard/Instance/Rounds.antt =====
-- What each round of a reconciliation leaves of the waits that are to end.
use gronin.Prelude.{
  ℕ, ◌≡◌, refl, ◌∙◌, Bool, true, false, ◌&&◌, ◌||◌, not, List, [], ◌∷◌, none, String, str_eq,
  eq_iff, Result, ok, err, exists_row, exists_mono_none, exists-update_none, arith, subst,
  Bool-cases, Option-cases, inl, inr,
}
use gronin.Record.Types.{WaitingTrigger, RunRow}
use gronin.Record.Db.{Db, StoreError, is_waiting}
use gronin.Record.Waiting.{WaitEnd, end_wait, set_ended, is_live, with_run}
use gronin.Record.Waiting.Once.{end_wait-inv, set_ended-none}
use gronin.Guard.Instance.{Host, Progress, ran, dropped, after, reconcile_one, reconcile_each}

-- A trigger to end: a run names it, or its process is gone.
abbrev pub is_over : Host → WaitingTrigger → Bool
is_over h t = not (str_eq t.run_id "") || not (h.alive t.instance_id)

-- A row that waits, as it is read beside the runs, and is to end.
abbrev pub is_left : Host → List RunRow → WaitingTrigger → Bool
is_left h runs w = is_waiting w.outcome && is_over h (with_run runs w)

abbrev pub is_left_as : Host → List RunRow → String → WaitingTrigger → Bool
is_left_as h runs id w = str_eq w.id id && is_left h runs w

and_false : (a b c : Bool) → b ≡ false → (a && (b && c)) ≡ false
and_false a b c h = ground arith

and_weaken : (a b c : Bool) → (a && (b && c)) ≡ true → (a && b) ≡ true
and_weaken a b c h = ground arith

set_ended-left :
    (h : Host) (runs : List RunRow) (id key : String) (end : WaitEnd) (rows : List WaitingTrigger)
    → is_waiting end.outcome ≡ false
    → exists_row (is_left_as h runs id) rows ≡ false
    → exists_row (is_left_as h runs id) (set_ended key end rows) ≡ false
unfolding set_ended
set_ended-left h runs id key end rows over e =
    exists-update_none (is_left_as h runs id) (is_live key) _
      (λ w. and_false (str_eq w.id id) (is_waiting end.outcome) _ over) rows e

none-left :
    (h : Host) (runs : List RunRow) (id : String) (rows : List WaitingTrigger)
    → exists_row (is_live id) rows ≡ false
    → exists_row (is_left_as h runs id) rows ≡ false
none-left h runs id rows e =
    exists_mono_none (is_left_as h runs id) (is_live id)
      (λ w. and_weaken (str_eq w.id id) (is_waiting w.outcome) (is_over h (with_run runs w))) rows e

-- What one round leaves, where it does not fail.
abbrev IsRound : Host → WaitingTrigger → Db → Db → Type 0
IsRound h t db db' =
    (db'.runs ≡ db.runs)
    × ((runs : List RunRow) (id : String)
        → exists_row (is_left_as h runs id) db.waiting_triggers ≡ false
        → exists_row (is_left_as h runs id) db'.waiting_triggers ≡ false)
    × ((runs : List RunRow)
        → is_over h t ≡ true
        → exists_row (is_left_as h runs t.id) db'.waiting_triggers ≡ false)

after-db :
    (counts : Bool) (n : ℕ) (db db' : Db) (b : Bool) → (after counts n db (ok (b, db'))).db ≡ db'
unfolding after
after-db counts n db db' true = refl
after-db counts n db db' false = refl

after-IsRound :
    (h : Host) (t : WaitingTrigger) (end : WaitEnd) (counts : Bool) (n : ℕ) (db : Db)
    (r : Result StoreError (Bool × Db))
    → end_wait h.filing t.id end db ≡ r
    → (after counts n db r).failure ≡ none
    → IsRound h t db (after counts n db r).db
unfolding after
after-IsRound h t end counts n db (err why) e p = absurd (ground arith)
after-IsRound h t end counts n db (ok (b, db')) e p =
    let (over, rs, ws) = end_wait-inv h.filing t.id end db db' b e in
    let same : (after counts n db (ok (b, db'))).db ≡ db' = after-db counts n db db' b in
    rw same (
      rs,
      λ runs id left. rw ws (set_ended-left h runs id t.id end db.waiting_triggers over left),
      λ runs o. rw ws (
          none-left h runs t.id (set_ended t.id end db.waiting_triggers)
            (set_ended-none t.id end db.waiting_triggers over)),
    )

reconcile_one-IsRound :
    (h : Host) (t : WaitingTrigger) (n : ℕ) (db : Db)
    → (reconcile_one h t n db).failure ≡ none
    → IsRound h t db (reconcile_one h t n db).db
unfolding reconcile_one
reconcile_one-IsRound h t n db p = elim (Bool-cases (str_eq t.run_id "")) [
  | inr named ↦
      let q : reconcile_one h t n db ≡ after false n db (end_wait h.filing t.id (ran h t) db) =
        rw (named, reconcile_one) refl in
      rw q (after-IsRound h t (ran h t) false n db _ refl (rw q at p))
  | inl unnamed ↦ elim (Bool-cases (h.alive t.instance_id)) [
    | inl alive ↦
        rw (unnamed, alive)
          (refl, λ runs id left. left, λ runs o. absurd (ground (arith, unnamed, alive)))
    | inr gone ↦
        let q : reconcile_one h t n db ≡ after true n db (end_wait h.filing t.id (dropped h t) db) =
          rw (unnamed, gone, reconcile_one) refl in
        rw q (after-IsRound h t (dropped h t) true n db _ refl (rw q at p))
  ]
]

or_now : (a b c : Bool) → c ≡ false → ((a && b) || c) ≡ true → (a ≡ true) × (b ≡ true)
or_now a b c h k = (ground arith, ground arith)

not_failed :
    (h : Host) (ts : List WaitingTrigger) (p : Progress)
    → (reconcile_each h ts p).failure ≡ none
    → p.failure ≡ none
unfolding reconcile_each
not_failed h [] p e = e
not_failed h (t ∷ ts) p e = elim (Option-cases p.failure) [
  | inl going ↦ going
  | inr (why, failed) ↦ absurd (ground (arith, failed, rw failed at e))
]

-- What the loop leaves, where it does not fail: the runs, and none of its triggers.
pub reconcile_each_rounds :
    (h : Host) (ts : List WaitingTrigger) (p : Progress)
    → (reconcile_each h ts p).failure ≡ none
    → ((reconcile_each h ts p).db.runs ≡ p.db.runs)
      × ((runs : List RunRow) (id : String)
          → exists_row (is_left_as h runs id) p.db.waiting_triggers ≡ false
          → exists_row (is_left_as h runs id) (reconcile_each h ts p).db.waiting_triggers ≡ false)
      × ((runs : List RunRow) (id : String)
          → exists_row (λ t. str_eq t.id id && is_over h t) ts ≡ true
          → exists_row (is_left_as h runs id) (reconcile_each h ts p).db.waiting_triggers ≡ false)
unfolding reconcile_each exists_row
reconcile_each_rounds h [] p e = (refl, λ runs id left. left, λ runs id k. absurd (ground arith))
reconcile_each_rounds h (t ∷ ts) p e = elim (Option-cases p.failure) [
  | inr (why, failed) ↦ absurd (ground (arith, failed, rw failed at e))
  | inl going ↦
      let q : reconcile_each h (t ∷ ts) p ≡ reconcile_each h ts (reconcile_one h t p.count p.db) =
        rw (going, reconcile_each) refl in
      let e' = rw q at e in
      let (rs, keeps, ends) = reconcile_each_rounds h ts (reconcile_one h t p.count p.db) e' in
      let (r1, k1, e1) = reconcile_one-IsRound h t p.count p.db (not_failed h ts _ e') in
      rw q (
        rs ∙ r1,
        λ runs id left. keeps runs id (k1 runs id left),
        λ runs id k. elim (Bool-cases (exists_row (λ x. str_eq x.id id && is_over h x) ts)) [
          | inl later ↦ ends runs id later
          | inr none_later ↦
              let now : (str_eq t.id id ≡ true) × (is_over h t ≡ true) =
                or_now (str_eq t.id id) (is_over h t) _ none_later k in
              keeps runs id (
                subst
                  (λ x.
                    exists_row (is_left_as h runs x)
                      (reconcile_one h t p.count p.db).db.waiting_triggers
                    ≡ false)
                  ((eq_iff t.id id).0 now.0) (e1 runs now.1))
        ],
      )
]
