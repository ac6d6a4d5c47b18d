-- ===== src/Record/Accept/Retry.antt =====
-- A retry of a delivery hands none of its decided playbooks over again.
use gronin.Prelude.{
  ◌≡◌, refl, ◌∙◌, ap, true, false, ◌&&◌, ◌||◌, some, String, str_eq, ok, >>=-eq-ok, find,
  exists_row, arith, Bool-cases, Option-cases, inl, inr,
}
use gronin.Prelude.Int.{leb_ℤ}
use gronin.Record.Types.{is_zero, time_sub, Delivery}
use gronin.Record.Db.{Db, is_delivery, is_handoff, is_decided, is_undecided}
use gronin.Record.Reconcile.{is_run_of, reconcile_delivery}
use gronin.Record.Reconcile.Decided.{reconcile_delivery_key, reconcile_delivery-decided}
use gronin.Record.Accept.{
  AcceptParams, Outside, existing_delivery, record_new, recorded, new_delivery, identity_of, judge,
  judge_gone, accept, accept_known, is_alive, Judgement, is_dropped, filing_of, is_open, is_in,
}
use gronin.Record.Accept.New.{record_new-inv}
use gronin.Record.Accept.Chain.{to_hand-redacted, insert_handoffs_other}

-- What a judgement that reconciled a delivery says, and what the reconciliation left.
judge_gone-inv :
    (o : Outside) (x : Delivery) (p : AcceptParams) (db db' : Db) (j : Judgement)
    → judge_gone o x p db ≡ ok (j, db')
    → j.is_new ≡ true
    → (reconcile_delivery (filing_of o) x.id p.received_at db ≡ ok db') × (j.supersedes ≡ x.id)
unfolding judge_gone
judge_gone-inv o x p db db' j e new =
    let (r, reconciled, e') =
      >>=-eq-ok (reconcile_delivery (filing_of o) x.id p.received_at db) _ e in
    elim (Option-cases (find (is_delivery x.id) r.deliveries)) [
      | inl gone ↦ absurd (ground (arith, rw gone at e'))
      | inr (d, there) ↦
          let e'' = rw there at e' in
          elim (Bool-cases (is_dropped d.state)) [
            | inl dropped ↦
                let e3 = rw dropped at e'' in (reconciled ∙ ap ok (ground arith), ground arith)
            | inr kept ↦ let e3 = rw kept at e'' in absurd (ground arith)
          ]
    ]

-- A retry within the window is a judgement that reconciled the delivery it retries.
retry_shape :
    (o : Outside) (p : AcceptParams) (x d : Delivery) (db db' : Db)
    → accept o p db ≡ ok (d, true, db')
    → existing_delivery db (o.redact p.source) (identity_of o p).0 ≡ ok (some x)
    → leb_ℤ p.replay_window (time_sub p.received_at x.received_at) ≡ false
    → is_open x.state ≡ true
    → is_alive o.alive x.instance_id ≡ false
    → (mid : Db) × (reconcile_delivery (filing_of o) x.id p.received_at db ≡ ok mid)
      × (record_new o p (new_delivery o p x.id) mid ≡ ok (d, true, db'))
unfolding accept judge accept_known
retry_shape o p x d db db' e known inside opened gone = elim (Bool-cases (is_zero p.received_at)) [
  | inl untimed ↦ absurd (ground (arith, untimed))
  | inr timed ↦
      let kept : is_dropped x.state ≡ false = ground arith in
      let ((j, mid), judged, e') =
        >>=-eq-ok (judge_gone o x p db) (accept_known o p x)
          (rw (timed, known, inside, kept, opened, gone) at e) in
      elim (Bool-cases j.is_new) [
        | inr old ↦ absurd (ground (arith, rw old at e'))
        | inl new ↦
            let (reconciled, is_x) = judge_gone-inv o x p db mid j judged new in
            (mid, reconciled, rw (new, is_x) at e')
      ]
]

-- A retry of a delivery whose process is gone, within the replay window and before the delivery
-- was concluded, supersedes it, and writes no hand-off row for a playbook that a run of that
-- delivery names, even where the ended process had not marked the hand-off yet; provided that the
-- hand-off was not dropped, that the new delivery's identifier has no row of that playbook yet,
-- and that the redactor leaves the declared playbook names as they are.
pub accept-retry :
    (o : Outside) (p : AcceptParams) (x d : Delivery) (playbook : String) (db db' : Db)
    → accept o p db ≡ ok (d, true, db')
    → existing_delivery db (o.redact p.source) (identity_of o p).0 ≡ ok (some x)
    → leb_ℤ p.replay_window (time_sub p.received_at x.received_at) ≡ false
    → is_open x.state ≡ true
    → is_alive o.alive x.instance_id ≡ false
    → str_eq x.id "" ≡ false
    → exists_row (is_run_of x.id playbook) db.runs ≡ true
    → exists_row
        (λ h. is_handoff x.id playbook h && (is_undecided h.state || is_decided h.state))
        db.handoffs
      ≡ true
    → exists_row (is_handoff d.id playbook) db.handoffs ≡ false
    → ((n : String) → is_in p.playbooks n ≡ true → o.redact n ≡ n)
    → (d.supersedes ≡ x.id) × (exists_row (is_handoff d.id playbook) db'.handoffs ≡ false)
unfolding new_delivery recorded
accept-retry o p x d playbook db db' e known inside opened gone named run row fresh raw =
    let (mid, reconciled, made) = retry_shape o p x d db db' e known inside opened gone in
    let (names, hs, handed, inserted, new, is_d, is_true, is_db) =
      record_new-inv o p (new_delivery o p x.id) d true mid db' made in
    let decided =
      reconcile_delivery-decided (filing_of o) x.id playbook p.received_at db mid reconciled run
        row in
    let left =
      to_hand-redacted o.redact mid x.id playbook p.playbooks names named decided handed raw in
    (
      rw is_d refl,
      rw (is_d, is_db)
          (insert_handoffs_other o.redact o.delivery_id playbook names mid.handoffs hs inserted left
            ∙ reconcile_delivery_key (filing_of o) x.id p.received_at o.delivery_id playbook db mid
                reconciled
            ∙ rw is_d at fresh),
    )
