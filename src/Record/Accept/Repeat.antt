-- ===== src/Record/Accept/Repeat.antt =====
-- An identity is new once: what a second acceptance finds after the first.
use gronin.Prelude.{
  ◌+◌, ◌≡◌, refl, ◌⊎◌, true, false, List, some, String, eq_refl, ok, >>=-eq-ok, find, update, arith,
  Bool-cases, Option-cases, inl, inr,
}
use gronin.Prelude.Int.{leb_ℤ}
use gronin.Record.Types.{is_zero, time_sub, Delivery, IdentityRow, HandOff}
use gronin.Record.Db.{Db, is_delivery}
use gronin.Record.Accept.{
  AcceptParams, Outside, existing_delivery, record_new, recorded, new_delivery, identity_of, judge,
  accept, accept_known, count_repeat, is_alive, Judgement, is_dropped, is_open,
}
use gronin.Record.Accept.New.{find-repoint, record_new-inv}

known_new :
    (o : Outside) (p : AcceptParams) (existing d : Delivery) (r : Judgement × Db) (db' : Db)
    → accept_known o p existing r ≡ ok (d, true, db')
    → (supersedes : String) × (before : Db) × (record_new o p (new_delivery o p supersedes) before
        ≡ ok (d, true, db'))
unfolding accept_known
known_new o p existing d (j, db) db' e = elim (Bool-cases j.is_new) [
  | inl new ↦ (j.supersedes, db, rw new at e)
  | inr old ↦ absurd (ground (arith, old))
]

-- What `Accept` returns as new was recorded, from a database that the judgement left.
pub accept_new :
    (o : Outside) (p : AcceptParams) (d : Delivery) (db db' : Db)
    → accept o p db ≡ ok (d, true, db')
    → (supersedes : String) × (before : Db) × (record_new o p (new_delivery o p supersedes) before
        ≡ ok (d, true, db'))
unfolding accept
accept_new o p d db db' e = elim (Bool-cases (is_zero p.received_at)) [
  | inl zero ↦ absurd (ground (arith, zero))
  | inr timed ↦
      let (found, ex, e') =
        >>=-eq-ok (existing_delivery db (o.redact p.source) (identity_of o p).0) _
          (rw timed at e) in
      elim (Option-cases found) [
        | inl no_one ↦ ("", db, rw no_one at e')
        | inr (existing, one) ↦
            let (r, judged, e'') = >>=-eq-ok (judge o existing p db) _ (rw one at e') in
            known_new o p existing d r db' e''
      ]
]

existing_recorded :
    (d : Delivery) (hs : List HandOff) (before : Db)
    → existing_delivery (recorded d hs before) d.source d.identity ≡ ok (some d)
unfolding existing_delivery recorded
existing_recorded d hs before =
    let row : IdentityRow = record {
      source = d.source;
      identity = d.identity;
      delivery_id = d.id;
      accepted_at = d.received_at;
    } in
    rw (find-repoint row before.identities, existing_delivery)
      (unfold find in rw (eq_refl d.id) refl)

-- A known identity within its window is a repeat where its delivery is not dropped, and is decided
-- or held by a process that lives.
pub accept_repeat :
    (o : Outside) (p : AcceptParams) (db : Db) (x : Delivery)
    → is_zero p.received_at ≡ false
    → existing_delivery db (o.redact p.source) (identity_of o p).0 ≡ ok (some x)
    → leb_ℤ p.replay_window (time_sub p.received_at x.received_at) ≡ false
    → is_dropped x.state ≡ false
    → (is_open x.state ≡ false) ⊎ (is_alive o.alive x.instance_id ≡ true)
    → accept o p db ≡ ok (count_repeat x db)
unfolding accept judge
accept_repeat o p db x timed known inside kept (inl closed) =
    rw (timed, known, inside, kept, closed) refl
accept_repeat o p db x timed known inside kept (inr alive) = elim (Bool-cases (is_open x.state)) [
  | inl open_one ↦ rw (timed, known, inside, kept, open_one, alive) refl
  | inr closed ↦ rw (timed, known, inside, kept, closed) refl
]

-- After an acceptance that was new, a second one of the same identity at the same source, within
-- the replay window and while the process that accepted it lives, is a repeat: it returns the first
-- delivery with one repeat counted, counts it in that delivery's row, and changes nothing else, no
-- hand-off row either.
pub accept-accept :
    (o o' : Outside) (p p' : AcceptParams) (d : Delivery) (db db' : Db)
    → accept o p db ≡ ok (d, true, db')
    → is_zero p'.received_at ≡ false
    → o'.redact p'.source ≡ o.redact p.source
    → (identity_of o' p').0 ≡ (identity_of o p).0
    → leb_ℤ p'.replay_window (time_sub p'.received_at p.received_at) ≡ false
    → is_alive o'.alive (o.redact p.instance_id) ≡ true
    → accept o' p' db'
      ≡ ok (
        record d { repeats = 1 },
        false,
        record db' {
          deliveries =
              update (is_delivery d.id) (λ x. record x { repeats = x.repeats + 1 }) db'.deliveries;
        },
      )
unfolding new_delivery count_repeat
accept-accept o o' p p' d db db' e timed src ident inside alive =
    let (supersedes, before, made) = accept_new o p d db db' e in
    let (names, hs, handed, inserted, fresh, is_d, is_true, is_db) =
      record_new-inv o p (new_delivery o p supersedes) d true before db' made in
    let known : existing_delivery db' (o'.redact p'.source) (identity_of o' p').0 ≡ ok (some d) =
      rw (src, ident, is_db, is_d) (existing_recorded (new_delivery o p supersedes) hs before) in
    rw (accept_repeat o' p' db' d timed known (rw is_d inside) (rw is_d refl) (inr (rw is_d alive)))
      (rw is_d refl)
