-- ===== src/Record/Reconcile/Decided.antt =====
-- A hand-off that a durable record decides is decided by the reconciliation, never dropped.
use gronin.Prelude.{
  ◌≡◌, refl, ◌∙◌, Bool, true, false, ◌&&◌, ◌||◌, List, [], ◌∷◌, some, String, str_eq, eq_iff, ok,
  >>=-eq-ok, select, exists_row, exists-update, exists-update_hit, exists_mono, exists-select,
  exists-map, arith, Bool-cases, Option-cases, inl, inr, subst, exists-or,
}
use gronin.Record.Types.{Time, HandOff, HandOffState}
use gronin.Record.Db.{Db, is_undecided, is_decided, is_handoff, of_delivery}
use gronin.Record.Refusals.{Filing, add_refusal}
use gronin.Record.Reconcile.{
  is_run_of, decided_elsewhere, set_handoff, end_left_wait, reconcile_one, reconcile_each,
  undecided_names, reconcile_delivery,
}

-- What a run decides.
decided_by_run :
    (db : Db) (delivery playbook : String)
    → exists_row (is_run_of delivery playbook) db.runs ≡ true
    → decided_elsewhere db delivery playbook ≡ some HandOffState.handed_off
unfolding decided_elsewhere
decided_by_run db delivery playbook h = rw h refl

-- A decided row of one playbook's hand-off.
abbrev pub is_decided_of : String → String → HandOff → Bool
is_decided_of delivery playbook h = is_handoff delivery playbook h && is_decided h.state

-- An undecided row of one playbook's hand-off, as the loop's query finds it.
abbrev pub is_open_of : String → String → HandOff → Bool
is_open_of delivery playbook h =
    (of_delivery delivery h && is_undecided h.state) && str_eq h.playbook_name playbook

names_of_open :
    (delivery playbook : String) (hs : List HandOff)
    → exists_row (is_open_of delivery playbook) hs ≡ true
    → exists_row (λ n. str_eq n playbook) (undecided_names delivery hs) ≡ true
unfolding undecided_names
names_of_open delivery playbook hs e =
    rw
      (
        exists-map (λ n. str_eq n playbook) (λ (h : HandOff). h.playbook_name)
            (select (λ h. of_delivery delivery h && is_undecided h.state) hs),
        exists-select (λ (h : HandOff). str_eq h.playbook_name playbook)
            (λ h. of_delivery delivery h && is_undecided h.state) hs,
      )
      e

-- Ending a left wait touches neither the hand-offs nor the runs.
end_left_wait_keeps :
    (filing : Filing) (delivery playbook : String) (at : Time) (db db' : Db)
    → end_left_wait filing delivery at playbook db ≡ ok db'
    → (db'.handoffs ≡ db.handoffs) × (db'.runs ≡ db.runs)
unfolding end_left_wait add_refusal
end_left_wait_keeps filing delivery playbook at db db' e = (ground arith, ground arith)

set_handoff_other :
    (delivery playbook other : String) (state : HandOffState) (at : Time) (hs : List HandOff)
    → str_eq other playbook ≡ false
    → exists_row (is_decided_of delivery playbook) (set_handoff delivery other state at hs)
      ≡ exists_row (is_decided_of delivery playbook) hs
unfolding set_handoff
set_handoff_other delivery playbook other state at hs ne =
    exists-update _ (is_handoff delivery other) _
      (λ h k. ground (
        arith,
        eq_iff h.playbook_name other,
        eq_iff h.playbook_name playbook,
        eq_iff other playbook,
      ))
      hs

set_handoff_key :
    (delivery other key playbook : String) (state : HandOffState) (at : Time) (hs : List HandOff)
    → exists_row (is_handoff key playbook) (set_handoff delivery other state at hs)
      ≡ exists_row (is_handoff key playbook) hs
unfolding set_handoff
set_handoff_key delivery other key playbook state at hs =
    exists-update (is_handoff key playbook) (is_handoff delivery other) _ (λ h k. refl) hs

set_handoff_decides :
    (delivery playbook : String) (at : Time) (hs : List HandOff)
    → exists_row (is_handoff delivery playbook) hs ≡ true
    → exists_row
        (is_decided_of delivery playbook)
        (set_handoff delivery playbook HandOffState.handed_off at hs)
      ≡ true
unfolding set_handoff
set_handoff_decides delivery playbook at hs e =
    exists-update_hit (is_handoff delivery playbook) (is_decided_of delivery playbook) _
      (λ h k. ground arith) hs e

-- A round writes its playbook's hand-off, as decided where a record decides it, and no run.
reconcile_one_shape :
    (filing : Filing) (delivery name : String) (at : Time) (s s' : Db × Bool)
    → reconcile_one filing delivery at name s ≡ ok s'
    → (state : HandOffState) × (s'.0.handoffs ≡ set_handoff delivery name state at s.0.handoffs)
      × (s'.0.runs ≡ s.0.runs)
      × ((decided : HandOffState)
          → decided_elsewhere s.0 delivery name ≡ some decided
          → state ≡ decided)
unfolding reconcile_one
reconcile_one_shape filing delivery name at (db, b) s' e =
    elim (Option-cases (decided_elsewhere db delivery name)) [
      | inr (state, known) ↦
          let e' = rw (known, reconcile_one) at e in
          (state, ground arith, ground arith, λ decided h. ground arith)
      | inl unknown ↦
          let (ended, left, e') =
            >>=-eq-ok (end_left_wait filing delivery at name db) _
              (rw (unknown, reconcile_one) at e) in
          let (hs, rs) = end_left_wait_keeps filing delivery name at db ended left in
          (HandOffState.dropped, ground arith, ground arith, λ decided h. absurd (ground arith))
    ]

reconcile_each_key :
    (filing : Filing) (delivery : String) (at : Time) (key playbook : String) (names : List String)
    (s s' : Db × Bool)
    → reconcile_each filing delivery at names s ≡ ok s'
    → exists_row (is_handoff key playbook) s'.0.handoffs
      ≡ exists_row (is_handoff key playbook) s.0.handoffs
unfolding reconcile_each
reconcile_each_key filing delivery at key playbook [] s s' e = ground arith
reconcile_each_key filing delivery at key playbook (name ∷ names) s s' e =
    let (mid, first, rest) = >>=-eq-ok (reconcile_one filing delivery at name s) _ e in
    let (state, hs, rs, known) = reconcile_one_shape filing delivery name at s mid first in
    reconcile_each_key filing delivery at key playbook names mid s' rest
    ∙ rw hs (set_handoff_key delivery name key playbook state at s.0.handoffs)

-- The reconciliation neither adds nor removes a hand-off row.
pub reconcile_delivery_key :
    (filing : Filing) (delivery : String) (at : Time) (key playbook : String) (db db' : Db)
    → reconcile_delivery filing delivery at db ≡ ok db'
    → exists_row (is_handoff key playbook) db'.handoffs
      ≡ exists_row (is_handoff key playbook) db.handoffs
unfolding reconcile_delivery
reconcile_delivery_key filing delivery at key playbook db db' e =
    let (s, each, e') =
      >>=-eq-ok
        (reconcile_each filing delivery at (undecided_names delivery db.handoffs) (db, false)) _
        e in
    let hs : db'.handoffs ≡ s.0.handoffs = ground arith in
    rw hs (
      reconcile_each_key filing delivery at key playbook (undecided_names delivery db.handoffs)
        (db, false) s each)

module _ (filing : Filing) (delivery playbook : String) (at : Time) where
  -- What the rounds keep: the playbook's hand-off is there, and a run names it.
  abbrev Tracked : Db → Type 0
  Tracked db =
      (exists_row (is_handoff delivery playbook) db.handoffs ≡ true)
      × (exists_row (is_run_of delivery playbook) db.runs ≡ true)

  abbrev IsDecidedIn : Db → Type 0
  IsDecidedIn db = exists_row (is_decided_of delivery playbook) db.handoffs ≡ true

  reconcile_one_keeps :
      (name : String) (s s' : Db × Bool)
      → reconcile_one filing delivery at name s ≡ ok s'
      → Tracked s.0
      → Tracked s'.0
        × (IsDecidedIn s.0 → IsDecidedIn s'.0)
        × (str_eq name playbook ≡ true → IsDecidedIn s'.0)
  reconcile_one_keeps name s s' e (there, run) =
      let (state, hs, rs, known) = reconcile_one_shape filing delivery name at s s' e in
      let decides : str_eq name playbook ≡ true → IsDecidedIn s'.0 = λ same.
        let p = (eq_iff name playbook).0 same in
        let handed =
          known HandOffState.handed_off (rw p (decided_by_run s.0 delivery playbook run)) in
        rw (hs, handed, p) (set_handoff_decides delivery playbook at s.0.handoffs there) in
      (
        (
          rw (hs, set_handoff_key delivery name delivery playbook state at s.0.handoffs) there,
          rw rs run,
        ),
        λ before. elim (Bool-cases (str_eq name playbook)) [
          | inl same ↦ decides same
          | inr other ↦
              rw (hs, set_handoff_other delivery playbook name state at s.0.handoffs other) before
        ],
        decides,
      )

  reconcile_each_keeps :
      (names : List String) (s s' : Db × Bool)
      → reconcile_each filing delivery at names s ≡ ok s'
      → Tracked s.0
      → Tracked s'.0
        × (IsDecidedIn s.0 → IsDecidedIn s'.0)
        × (exists_row (λ n. str_eq n playbook) names ≡ true → IsDecidedIn s'.0)
  unfolding reconcile_each exists_row
  reconcile_each_keeps [] s s' e t =
      let p : s ≡ s' = ground arith in
      (
        subst (λ x. Tracked x.0) p t,
        λ h. subst (λ x. IsDecidedIn x.0) p h,
        λ k. absurd (ground arith),
      )
  reconcile_each_keeps (name ∷ names) s s' e t =
      let (mid, first, rest) = >>=-eq-ok (reconcile_one filing delivery at name s) _ e in
      let (t1, k1, d1) = reconcile_one_keeps name s mid first t in
      let (t2, k2, d2) = reconcile_each_keeps names mid s' rest t1 in
      (
        t2,
        λ h. k2 (k1 h),
        λ h. elim (Bool-cases (str_eq name playbook)) [
          | inl same ↦ k2 (d1 same)
          | inr other ↦ d2 (ground (arith, other))
        ],
      )

  -- Where a run names a hand-off that is not dropped, `reconcileDelivery` leaves it decided.
  pub reconcile_delivery-decided :
      (db db' : Db)
      → reconcile_delivery filing delivery at db ≡ ok db'
      → exists_row (is_run_of delivery playbook) db.runs ≡ true
      → exists_row
          (λ h. is_handoff delivery playbook h && (is_undecided h.state || is_decided h.state))
          db.handoffs
        ≡ true
      → IsDecidedIn db'
  unfolding reconcile_delivery
  reconcile_delivery-decided db db' e run row =
      let (s, each, e') =
        >>=-eq-ok
          (reconcile_each filing delivery at (undecided_names delivery db.handoffs) (db, false)) _
          e in
      let (kept, stays, becomes) =
        reconcile_each_keeps (undecided_names delivery db.handoffs) (db, false) s each
          (
            exists_mono _ (is_handoff delivery playbook) (λ h k. ground arith) db.handoffs row,
            run,
          ) in
      let hs : db'.handoffs ≡ s.0.handoffs = ground arith in
      let split =
        exists-or (is_decided_of delivery playbook) (is_open_of delivery playbook) db.handoffs
          (exists_mono _ _ (λ h k. ground arith) db.handoffs row) in
      rw hs (elim split [
        | inl done ↦ stays done
        | inr open_one ↦ becomes (names_of_open delivery playbook db.handoffs open_one)
      ])
