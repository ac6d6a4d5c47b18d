-- ===== src/Record/Waiting/Once.antt =====
-- One live waiting trigger for each playbook, and a wait that ends once.
use gronin.Prelude.{
  ℕ, ◌≤◌, ◌≡◌, refl, sym, ap, ◌∙◌, Bool, false, ◌||◌, List, [], ◌∷◌, Option, none, some, String,
  eq_iff, ok, >>=-eq-ok, select, exists_row, update, length, arith, Bool-cases, inl, inr,
}
use gronin.Record.Types.{is_zero, WaitingTrigger, Refusal}
use gronin.Record.Db.{Db, is_waiting}
use gronin.Record.Refusals.{Filing, insert_refusal, add_refusal}
use gronin.Record.Waiting.{
  is_live_for, accept_waiting, WaitEnd, is_live, set_ended, file_refusal, end_wait,
}

-- The waiting rows of a playbook.
abbrev pub live_count : String → List WaitingTrigger → ℕ
live_count name rows = length (select (is_live_for name) rows)

-- At most one trigger waits for each playbook.
abbrev pub IsOneLive : Db → Type 0
IsOneLive db = (name : String) → live_count name db.waiting_triggers ≤ 1

live_count-none :
    (name : String) (rows : List WaitingTrigger)
    → exists_row (is_live_for name) rows ≡ false
    → live_count name rows ≡ 0
unfolding exists_row select
live_count-none name [] h = refl
live_count-none name (w ∷ ws) h = ground (arith, live_count-none name ws)

-- An acceptance keeps at most one trigger waiting for each playbook.
pub accept_waiting-IsOneLive :
    (filing : Filing) (id ref : String) (trigger t : WaitingTrigger) (db db' : Db)
    → IsOneLive db
    → accept_waiting filing id ref trigger db ≡ ok (t, db')
    → IsOneLive db'
unfolding accept_waiting select
accept_waiting-IsOneLive filing id ref trigger t db db' one e name =
    elim (Bool-cases
      (exists_row (is_live_for (filing.redact trigger.playbook_name)) db.waiting_triggers)) [
        | inl full ↦ absurd (ground (arith, full))
        | inr free ↦ ground (
          arith,
          one name,
          eq_iff (filing.redact trigger.playbook_name) name,
          live_count-none (filing.redact trigger.playbook_name) db.waiting_triggers free,
        )
      ]

live_count-set_ended :
    (id name : String) (end : WaitEnd) (rows : List WaitingTrigger)
    → is_waiting end.outcome ≡ false
    → live_count name (set_ended id end rows) ≤ live_count name rows
unfolding set_ended update select
live_count-set_ended id name end [] h = ground arith
live_count-set_ended id name end (w ∷ ws) h = ground (arith, live_count-set_ended id name end ws h)

-- No row is live under the identifier of a wait that was ended.
pub set_ended-none :
    (id : String) (end : WaitEnd) (rows : List WaitingTrigger)
    → is_waiting end.outcome ≡ false
    → exists_row (is_live id) (set_ended id end rows) ≡ false
unfolding set_ended update exists_row
set_ended-none id end [] h = refl
set_ended-none id end (w ∷ ws) h = ground (arith, set_ended-none id end ws h)

-- Filing a refusal leaves the waits and the runs.
pub file_refusal_keeps :
    (filing : Filing) (refusal : Option Refusal) (db db' : Db)
    → file_refusal filing refusal db ≡ ok db'
    → (db'.waiting_triggers ≡ db.waiting_triggers) × (db'.runs ≡ db.runs)
unfolding file_refusal insert_refusal add_refusal
file_refusal_keeps filing none db db' e = (ground arith, ground arith)
file_refusal_keeps filing (some refusal) db db' e = (ground arith, ground arith)

set_ended-same :
    (id : String) (end : WaitEnd) (rows : List WaitingTrigger)
    → exists_row (is_live id) rows ≡ false
    → set_ended id end rows ≡ rows
unfolding set_ended update exists_row
set_ended-same id end [] h = refl
set_ended-same id end (w ∷ ws) h = ground (arith, set_ended-same id end ws)

-- What an end that is not refused does to the waits, whether or not it is what ended one.
pub end_wait-inv :
    (filing : Filing) (id : String) (end : WaitEnd) (db db' : Db) (b : Bool)
    → end_wait filing id end db ≡ ok (b, db')
    → (is_waiting end.outcome ≡ false)
      × (db'.runs ≡ db.runs)
      × (db'.waiting_triggers ≡ set_ended id end db.waiting_triggers)
unfolding end_wait
end_wait-inv filing id end db db' b e =
    elim (Bool-cases (is_waiting end.outcome || is_zero end.at)) [
      | inl bad ↦ absurd (ground (arith, bad))
      | inr good ↦ elim (Bool-cases (exists_row (is_live id) db.waiting_triggers)) [
        | inr gone ↦
            let e' = rw (good, gone, end_wait) at e in
            let p : db ≡ db' = ground arith in
            (
              ground arith,
              ap (λ x. x.runs) (sym p),
              ap (λ x. x.waiting_triggers) (sym p)
                  ∙ sym (set_ended-same id end db.waiting_triggers gone),
            )
        | inl live ↦
            let (d, filed, e') =
              >>=-eq-ok
                (file_refusal filing end.refusal
                  (record db { waiting_triggers = set_ended id end db.waiting_triggers }))
                _ (rw (good, live, end_wait) at e) in
            let (ws, rs) = file_refusal_keeps filing end.refusal _ d filed in
            let p : d ≡ db' = ground arith in
            (ground arith, ap (λ x. x.runs) (sym p) ∙ rs, ap (λ x. x.waiting_triggers) (sym p) ∙ ws)
      ]
    ]

-- An end keeps at most one trigger waiting for each playbook.
pub end_wait-IsOneLive :
    (filing : Filing) (id : String) (end : WaitEnd) (db db' : Db) (b : Bool)
    → IsOneLive db
    → end_wait filing id end db ≡ ok (b, db')
    → IsOneLive db'
end_wait-IsOneLive filing id end db db' b one e name =
    let (over, rs, ws) = end_wait-inv filing id end db db' b e in
    rw ws (ground (arith, one name, live_count-set_ended id name end db.waiting_triggers over))

-- A wait ends once: after an end that was recorded, a second one of the same trigger, with whatever
-- outcome and time, reports that it ended nothing, and leaves the database as it is, so that it
-- writes no refusal either; unless it carries no outcome or no time, which is an error.
pub end_wait-once :
    (filing filing' : Filing) (id : String) (end end' : WaitEnd) (db db' : Db) (b : Bool)
    → end_wait filing id end db ≡ ok (b, db')
    → (is_waiting end'.outcome || is_zero end'.at) ≡ false
    → end_wait filing' id end' db' ≡ ok (false, db')
unfolding end_wait
end_wait-once filing filing' id end end' db db' b e good =
    let (over, rs, ws) = end_wait-inv filing id end db db' b e in
    let gone : exists_row (is_live id) db'.waiting_triggers ≡ false =
      rw ws (set_ended-none id end db.waiting_triggers over) in
    rw (good, gone) refl
